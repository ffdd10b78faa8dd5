-- ===== src/Lib.antt =====
-- Verification library of the billing application: invoices that are numbered, validated, sent to
-- an approved platform and paid, with the French rules on e-invoicing and e-reporting.
--
-- The parts, and the files that model them:
--
-- - Base: texts as lists of code points, Python's decimals (an integer coefficient and a scale,
--   with the two roundings that the code uses), dates of the Gregorian calendar, JSON values,
--   lists and integers.
-- - Model: the rows of apps/billing/models.py (Model/Choices, Model/Data for the JSON snapshot
--   `en16931_data`, Model/Rows), and in Model/Effects the database as a record of lists of rows
--   with what is sent out (Celery tasks, webhooks, signals). A method is a function from a
--   database to a result beside the new database: what was written before an exception stays
--   written, unless the block is in `transaction.atomic`. Model/Store: `save` computes the
--   denormalized fields and refuses a row that breaks a unique constraint; `save_fields` is
--   `save(update_fields=...)`. Model/Constraints: when a save succeeds.
-- - StateMachine: apps/billing/services/state_machine.py. StateMachine/Reach has the chains of
--   allowed transitions as an indexed data type.
-- - Numbering: apps/billing/services/numbering_service.py. The template engine is a parameter.
--   Numbering/Series has the abstract specification of a series of numbers.
-- - FlowDetector: apps/billing/services/flow_detector.py.
-- - InvoiceService: apps/billing/services/invoice_service.py. InvoiceService/Lifecycle has
--   `soft_delete`, `validate_invoice` and `transmit_invoice`, InvoiceService/Payment `mark_paid`,
--   InvoiceService/CreditNote `cancel_invoice` and `check_auto_cancel`. It calls the state
--   machine, the numbering and the flow detector, and queues the tasks. InvoiceService/Drafts has
--   `create_invoice`, `replace_draft_data` and `update_invoice` over an interface of the
--   resolution, which InvoiceService/Drafts/Resolved fills: rows and parties are written as JSON
--   for it and read after it (Drafts/Rows), and the resolution of the products of the lines is an
--   argument. InvoiceService/Payloads has the payload and the steps without the resolution.
-- - PayloadBuilder: apps/billing/services/payload_builder.py: PayloadBuilder/Lines and Totals the
--   lines and the totals, PayloadBuilder/Dates the dates, references and notes, and
--   `enrich_en16931_data`.
-- - FactpulseTasks: the Celery tasks of apps/factpulse/tasks.py. FactpulseTasks/Generation has
--   `generate_and_validate_invoice` and its exception handler, FactpulseTasks/Transmission
--   `transmit_invoice` (as `transmit_task`) and `submit_cdar_paid`, FactpulseTasks/Ereporting
--   `submit_ereporting_for_invoice`, FactpulseTasks/Cdar the lifecycle events,
--   FactpulseTasks/Fallback the fallback to the AFNOR flow and the polls that end in it. The
--   API, the PDF engine and the broker are records of functions whose answers are arbitrary.
-- - Webhooks: apps/webhooks/services.py, the endpoints of an event and its delivery; an
--   endpoint's answers are a parameter.
-- - PaymentEvents: `handle_webhook` of apps/payments/services.py and its handlers of confirmed
--   and failed payments, which call `mark_paid`; PaymentEvents/Checkout has `create_checkout`.
-- - StripeImport: the rest of apps/payments/services.py, the imports of Stripe's invoices and
--   credit notes by `create_invoice` and the handlers of their events, which PaymentEvents takes as
--   a parameter, with the customers of apps/payments/providers/stripe/sync.py;
--   StripeImport/CatchUp is apps/payments/catchup.py. The lists of Stripe are arguments.
-- - CustomerService: apps/billing/services/customer_service.py.
-- - Core: apps/core. Core/Rows has the rows and the queries, Core/ApiKeys `APIKey.generate`,
--   `APIKey.authenticate` and their revocation, Core/Access the permissions by role, Core/Context
--   the organization of a request (the middleware and the authentication by token), Core/Slugs
--   the search of a slug, Core/Signup `create_account` and `invite_customer_user`. SHA-256, the
--   parser of UUIDs, slugify and the validation of tokens are parameters.
-- - FactpulseClient: apps/factpulse/client.py, the client that the tasks call.
--   FactpulseClient/Wire has what goes over the wire, Tokens the tokens by client, Requests
--   `_request`, `_handle_error` and the poll of a task, Endpoints the methods. The server and the
--   clock are functions of the number of requests and readings so far.
-- - Resolution: apps/billing/services/resolution_service.py, on JSON values. Resolution/Merge has
--   `deep_merge`, Resolution/Entities the lookup, the matching and the creation of a supplier or
--   customer, Resolution/Parties `resolve_supplier`, `resolve_customer` and
--   `resolve_product_lines`. The two models are one record there, whose last five fields a
--   customer does not use.
-- - SireneClient: apps/billing/services/sirene_client.py; the API of the register is a parameter.
-- - StripeMapper: apps/payments/providers/stripe/mapper.py, its result as the records of
--   Model/Data. The quotient of two decimals is a parameter.
-- - Samples and the Tests modules: concrete invoices, and runs of the code on them.
--
-- A foreign key is the primary key of the other row, and primary keys stand for UUIDs. Loops are
-- structural recursions, but for the search of a slug in Core/Slugs: it has one round more than
-- there are organizations, and two of its candidates are never equal, so that a free one is among
-- them. The poll of a task has the thirty rounds of the code. Lists of logs, tasks, webhooks and
-- signals hold the newest entry first. A task is a function of the database at its start: a
-- worker does not see what another one writes while it runs. Decimals are exact: the code's
-- results stay below the 28 digits of the default context. A webhook, a signal or a queued task
-- is recorded; in the validation and the generation of an invoice the broker is a parameter that may
-- refuse, in the generation before the first of them, and elsewhere it takes what is sent.
--
-- Not modelled: the user interface, the assistant, the MCP and OAuth servers, the serializers,
-- views and settings, the layout of the PDF, and the adapters of the payment providers, which are
-- calls of other software; the products that are copied from Stripe and the mails to the owners;
-- the locks of the client, passwords and the verification of addresses; the texts of the
-- services' own error messages; timestamps and the acting user. A key of a payload that is null
-- is not told from one that is absent, but for the identifiers of the parties.
pub mod Base
pub mod Model
pub mod Core
pub mod FactpulseClient
pub mod Resolution
pub mod SireneClient
pub mod StripeMapper
pub mod StateMachine
pub mod Numbering
pub mod FlowDetector
pub mod InvoiceService
pub mod FactpulseTasks
pub mod PayloadBuilder
pub mod CustomerService
pub mod Webhooks
pub mod PaymentEvents
pub mod StripeImport
pub mod Samples
