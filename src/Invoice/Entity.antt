-- ===== src/Invoice/Entity.antt =====
-- src/invoice/domain/invoice.entity.ts
use ventura_api.Common.{Bool, true, false, String, Option, List, Uuid, Time}

pub data InvoiceStatus : Type 0 where
  draft sent paid partially_paid overdue cancelled : InvoiceStatus

-- `a === b`
abbrev pub same_status : InvoiceStatus → InvoiceStatus → Bool
same_status InvoiceStatus.draft InvoiceStatus.draft = true
same_status InvoiceStatus.sent InvoiceStatus.sent = true
same_status InvoiceStatus.paid InvoiceStatus.paid = true
same_status InvoiceStatus.partially_paid InvoiceStatus.partially_paid = true
same_status InvoiceStatus.overdue InvoiceStatus.overdue = true
same_status InvoiceStatus.cancelled InvoiceStatus.cancelled = true
same_status _ _ = false

pub data InvoiceType : Type 0 where
  standard proforma receipt : InvoiceType

pub data PaymentMethod : Type 0 where
  cash mobile_money bank_transfer card cheque : PaymentMethod

pub record Invoice (F : Type 0) : Type 0 where
  pub id : Uuid
  pub invoice_number : String
  pub business_id : Uuid
  pub order_ids : List Uuid
  pub customer_id : Option Uuid
  pub customer_name : Option String
  pub customer_email : Option String
  pub customer_phone : Option String
  pub invoice_type : InvoiceType
  pub subtotal : F
  pub vat_rate : F
  pub vat_amount : F
  pub nhil_rate : F
  pub nhil_amount : F
  pub getfund_rate : F
  pub getfund_amount : F
  pub total_tax : F
  pub total_amount : F
  pub amount_paid : F
  pub status : InvoiceStatus
  pub payment_method : Option PaymentMethod
  pub payment_date : Option Time
  pub issue_date : Option Time
  pub due_date : Option Time
  pub sent_at : Option Time
  pub notes : Option String
