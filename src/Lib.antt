-- ===== src/Lib.antt =====
-- A model of the core of the Ventura API and its proofs: resources with their stock ledger, customers,
-- orders, invoices and the list endpoints over them; appointments; users, sign-in and businesses; file
-- storage; and the reports that read them, dashboard, search and set-up.
--
-- The services (src/*/application/*.service.ts) check their input, call repositories and each other,
-- and throw HTTP exceptions. The repositories (src/*/infrastructure/*.repository.ts) hold the state in
-- PostgreSQL tables. An order reserves stock through the resource service, which keeps a ledger row for
-- each movement; an invoice bills orders, links them to itself and lets them go when it is cancelled.
-- Sign-in finds or creates users through the user service, which also reactivates accounts and keeps
-- the hash of the refresh token; a business is attached to the account of its owner.
--
-- Files and the code they model:
--   Common          Boolean tests, tables as lists (Lists), integers (Int), service calls with state
--                   and exceptions (Action), invariants of calls (Keeps), texts (Text, Tidy), escapeLike
--                   and ILIKE searches (Like)
--   Number          the arithmetic on doubles that money uses; Number/Decimal: exact decimals
--   Paging          src/common/dto/paginated.ts; Paging/Laws: which rows stand on which page
--   Db              the tables, what has left the process, and what the environment supplies
--   Resource        src/resource: Entity (domain), Repository, Service, Listing; Stock (measures of
--                   stock and ledger), Adjust and Nonneg (what the stock operations do to
--                   them), Counter (counters as their abstract view)
--   Customer        src/customer: Entity, Repository, Service; Distinct and Moved (addresses), History
--                   (histories of calls)
--   Order           src/order: Entity, Repository, Service (create), Status (updateStatus), Items and
--                   Quantities (updateItems), Listing, Best (topProducts); Reserve, Create, Conserve,
--                   Tally, Rollback, Round, Reconcile and Edit (conservation of stock), Kept (any
--                   invariant under the calls), Stocked and Manual, History (histories of calls), Transitions (the statuses as steps), Falling
--                   and Ranked (the ranking of products)
--   Invoice         src/invoice: Entity, Repository, Service (create), Tax, Lifecycle (recordPayment,
--                   send, updateStatus, the overdue task), Listing, Revenue (dailyRevenue); Settled, Status and Opened (payments),
--                   Issue and Cancel (links to orders), Tax/Bounds (rounding), History (histories of calls)
--   Appointment     src/appointment: Entity, Repository, Service; Booked and Timely (the calls) and History
--   Accounts        the tables and the environment of users, sign-in and businesses
--   User            src/user: Entity, Repository, Service, SignUp, Password, Profile, Lifecycle,
--                   EmailChange; Apart, Sound and Kept (the tables under every call), Unique (lookups
--                   and writes), Returns, Apple, Passwords
--   Auth            src/auth: Entity, Repository, Service, Providers (Google and Apple); Guard
--                   (administrators), Kept, Guesses,
--                   Verified, Lives, Admitted, Tokens, Moved
--   Business        src/business: Entity, Repository, Service; Linked (businesses and their owners)
--   FileStorage     src/file-storage: the keys of uploads and who may delete them; Owned
--   Dashboard       src/dashboard/dashboard.service.ts; Windows (its figures of revenue)
--   Search          src/search/search.service.ts; Found
--   Setup           src/setup/setup.service.ts; Status
--   Api             the handlers of src/*/application/*.controller.ts about the tables of the shop:
--                   Customers, Resources, Orders, Invoices, Appointments
--   Tenancy         the rows of a business under the writes of the repositories (Rows, Writes), the
--                   calls of the services (Sales, Bills) and the requests (Isolated); what a GET
--                   request shows (Blind, Reads, Private)
--   History         histories of calls of the user and sign-in services
--   Samples, Tests  a small shop and the theorems at work on it
--
-- A definition has the name of the function, method or type it models, in snake case for functions; a
-- method of a repository that a service method would hide is called create, update_row, delete_row. A
-- helper that a method does not name is cut out of it where the code has a loop, a try block or a
-- callback. A service call takes the database and returns a result or an exception with the database
-- after it: what was written before a throw stays written, as no transaction spans a service method.
-- Loops are structural recursions over the lists that they run through, so there is no fuel.
--
-- How values are modelled:
--   - ids are numbers that are only compared; uuid n and label n of the environment are the n-th id and
--     the n-th public number that are drawn. Creation and update times are left out.
--   - tables are lists, newest row first. `id` is the primary key, so an update that filters on it
--     changes the first row that fits. A query is the list operation that its filter says.
--   - stock and ledger are whole numbers; quantities and unit factors are natural numbers (the DTO
--     lets a factor have three decimals, which the integer columns of the stock do not hold). An order
--     line has its unit factor: the default of 1 for old lines is left out.
--   - money is a type F with the operations that the code applies to doubles; theorems hold for every
--     such type, but for those on the tax, on dailyRevenue and on the revenue of the dashboard, which
--     are about exact decimals.
--   - dates of appointments arrive parsed; rows in the order of their starts stand as in the table
--     where the starts are equal.
--   - the dashboard's time is a number of milliseconds since 1970, and a date of its chart the number
--     of its UTC day. The subtraction of doubles, which may give a negative number, is an argument.
--   - strings are trimmed and lower-cased in ASCII.
--   - the environment says whether orders (their links to invoices included) and whether a customer can
--     be written in a call: `create` and `updateItems` of orders and `bulkCreate` of customers handle
--     these failures, the calls on invoices do not. Other failures of the database, of the mail and of the file storage are left out.
--   - addresses and names of users are lists of code points. argon2, the signing of tokens and the
--     drawing of codes are functions of the environment, which differs from call to call; what Google
--     and Apple answer for a token is an argument. The unique columns of users are checked by the
--     model's create and update_row. Mail is always accepted, and a mail is what it was called with.
--   - in the file storage, ids are texts; the S3 client with its store is a parameter, and the random
--     part of a key an argument.
--   - handlers run one after the other; the restores of a Promise.all run in list order.
--
-- Not modelled: mail, the controllers of users, businesses and sign-in, and the framework around the
-- services (routing, validation, the other guards, wiring, migrations).
pub mod Common
pub mod Number
pub mod Paging
pub mod Db
pub mod Resource
pub mod Customer
pub mod Order
pub mod Invoice
pub mod Appointment
pub mod Accounts
pub mod User
pub mod Auth
pub mod Business
pub mod FileStorage
pub mod Dashboard
pub mod Search
pub mod Setup
pub mod Api
pub mod Tenancy
pub mod History
pub mod Samples
pub mod Tests
