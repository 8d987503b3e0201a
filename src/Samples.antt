-- ===== src/Samples.antt =====
-- A small database of one business, for the tests: two products, a service, a customer, an order and
-- two invoices.
use ventura_api.Common.{ℕ, ◌+◌, true, false, String, none, some, [], ◌∷◌}
use ventura_api.Common.Int.{pos}
use ventura_api.Number.Decimal.{Decimal, cents}
use ventura_api.Db.{Db, Env}
use ventura_api.Resource.Entity.{
  ResourceType, product, service, Resource, StockAdjustment, opening_balance,
}
use ventura_api.Customer.Entity.{Customer}
use ventura_api.Order.Entity.{pending, OrderItem, Order}
use ventura_api.Order.Service.{CreateOrderDto}
use ventura_api.Invoice.Entity.{InvoiceStatus, sent, draft, standard, Invoice}

abbrev listed : ℕ → ResourceType → String → ℕ → ℕ → Resource Decimal
listed id type name price stock = record {
  id = id;
  short_id = "RES";
  business_id = 7;
  type = type;
  name = name;
  price = cents price;
  primary_image = none;
  primary_image_key = none;
  supporting_images = [];
  supporting_image_keys = [];
  description = none;
  notes = none;
  available_quantity = pos stock;
  low_stock_threshold = pos 5;
  base_unit = some "bottle";
  units = record { name = "carton"; factor = 6; price = cents 5000 } ∷ [];
  business_hours = none;
}

abbrev opened : ℕ → ℕ → StockAdjustment
opened resource stock = record {
  id = 40 + resource;
  business_id = 7;
  resource_id = resource;
  delta = pos stock;
  reason = opening_balance;
  balance_after = pos stock;
  note = none;
  created_by = none;
}

abbrev pub ama : Customer
ama = record {
  id = 5;
  short_id = "CUS";
  business_id = 7;
  name = "Ama";
  email = some "ama@shop.gh";
  phone = none;
  notes = none;
}

abbrev line : OrderItem Decimal
line = record {
  resource_id = 1;
  type = product;
  name = "Malt";
  price = cents 5000;
  quantity = 2;
  unit = "carton";
  unit_factor = 6;
  sub_total = cents 10000;
}

abbrev pub open_order : Order Decimal
open_order = record {
  id = 20;
  order_number = "ORD";
  business_id = 7;
  customer_id = 5;
  customer_name = "Ama";
  customer_email = some "ama@shop.gh";
  customer_phone = none;
  items = line ∷ [];
  total_amount = cents 10000;
  status = pending;
  invoice_id = none;
}

abbrev pub billed : ℕ → InvoiceStatus → ℕ → Invoice Decimal
billed id status amount_paid = record {
  id = id;
  invoice_number = "INV";
  business_id = 7;
  order_ids = 21 ∷ [];
  customer_id = some 5;
  customer_name = some "Ama";
  customer_email = some "ama@shop.gh";
  customer_phone = none;
  invoice_type = standard;
  subtotal = cents 10000;
  vat_rate = cents 15;
  vat_amount = cents 1575;
  nhil_rate = 25_000;
  nhil_amount = cents 250;
  getfund_rate = 25_000;
  getfund_amount = cents 250;
  total_tax = cents 2075;
  total_amount = cents 12075;
  amount_paid = cents amount_paid;
  status = status;
  payment_method = none;
  payment_date = none;
  issue_date = some 400;
  due_date = some 500;
  sent_at = none;
  notes = none;
}

abbrev pub shop : Db Decimal
shop = record {
  resources =
      listed 1 product "Malt" 1000 30
      ∷ listed 2 product "Milo" 800 4
      ∷ listed 3 service "Fitting" 0 0
      ∷ [];
  adjustments = opened 1 30 ∷ opened 2 4 ∷ [];
  customers = ama ∷ [];
  orders = open_order ∷ [];
  invoices = billed 30 sent 5000 ∷ billed 31 draft 0 ∷ [];
  appointments = [];
  mailed = [];
  deleted_objects = [];
  drawn = 0;
}

abbrev pub env : Env
env = record {
  uuid = λ n. 100 + n;
  label = λ n. "NUM";
  now = 1000;
  writes_orders = true;
  writes_customers = λ n. true;
}

-- the database refuses to write orders
abbrev pub broken_env : Env
broken_env = record env { writes_orders = false }

-- two cartons of Malt, two bottles of Milo
abbrev pub basket : CreateOrderDto
basket = record {
  customer_id = 5;
  items =
      record { resource_id = 1; quantity = 2; unit = some "carton" }
      ∷ record { resource_id = 2; quantity = 2; unit = none }
      ∷ [];
}

-- five bottles of Milo, of which there are four
abbrev pub big_basket : CreateOrderDto
big_basket = record {
  customer_id = 5;
  items =
      record { resource_id = 1; quantity = 2; unit = some "carton" }
      ∷ record { resource_id = 2; quantity = 5; unit = none }
      ∷ [];
}
