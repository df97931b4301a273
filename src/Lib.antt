-- ===== src/Lib.antt =====
-- Verification of the GSG core kernel (src/): a server whose modules keep accounts, the product
-- catalogue, the administrative referential and the configuration of applications for a group of
-- products.
--
-- Parts and files.
--   Prelude        tests on numbers, lists, results, texts and tables that every part shares.
--   Common         Email: the value object of src/common/value-objects/email.vo.ts. Transaction: the
--                  interceptor that runs each write request in a transaction
--                  (src/common/interceptors/transaction.interceptor.ts). Parents, Ancestry and Forest:
--                  the walk up a chain of parents, which Engine and Org share.
--   Product        src/product. Errors, Workflow and LifeCycle: the publication workflow and the
--                  interface of the entities that follow it. Catalogue, Produit, Offre, Feature: the
--                  entities. Grille: price grids; Windows is the entity, Store the use cases
--                  `CreateGrilleTarifaire`, `TransitionGrilleTarifaireWorkflow` and
--                  `ResolveActivePrice`, NoOverlap and Price what holds of them.
--   Identity       src/identity. User and Tokens: the entities. Store: the tables and the services.
--                  Login, Session, Mfa: `AuthenticateUserUseCase`, `RefreshTokenUseCase` and the three
--                  use cases of the second factor. Requests: requests one after the other. Lockout,
--                  Entry, Rotation, Once, SecondFactor: what holds of them.
--   Engine         src/referential-engine. Workflow, Noeud, Hierarchy: the hierarchy of administrative
--                  nodes and its use cases; Chemin, Chains, Grown and Tree are about the materialised
--                  paths.
--                  Versions, Corpus: versioned corpora, their elements and their use cases; Ancestry,
--                  Forest and Placement are about the parents of elements. Villes: the consumer
--                  that counts the cities of a node. Regles, Terminal: the rules and their nodes.
--   AppConfig      src/app-config. Heritage: `resolveChamp` and the global level. Resolve: the use case.
--                  Priority: which level a value comes from.
--   Outbox         src/common/kernel-infrastructure. Table: the repository of the outbox. Relay: the
--                  relay. Rows, Delivery, Outage, Loss: what becomes of rows.
--                  Wire: the entry that the relay writes to the stream.
--   Org            src/org. Abonnement: the subscriptions of organisations to products and their use
--                  cases; Contracts: what holds of them. Organisation: the entities. Registry: the use
--                  cases on organisations and units and their tables. Filiation, Affiliation, Reached:
--                  the affiliation of organisations.
--   Audit          src/audit. Json and Redaction: payloads and what is struck out of them. Trail: the
--                  entities and tables. Process: `ProcessStreamEventUseCase`, `MoveToDeadLetterUseCase`
--                  and `ReplayDeadLetterUseCase`. Consumer: `RedisStreamsConsumerService`. Query:
--                  `QueryAuditTrailUseCase`. Clean, Outcomes, Journal, Sound, Runs, Kept, Replay, Wire,
--                  Scope: what holds of them.
--   Referential    src/referential. Nomenclature, Entites and Devises: countries, currencies, languages
--                  and blocks;
--                  Codes, Countries: their codes. Ville: cities; Compte, Counted: the counters that
--                  Engine.Villes keeps of them. Locale: locales and translations; Defaut, Choice: the
--                  default and the choice. Circulation, Principale: currencies of a country. Langues,
--                  Langue: its languages. Adhesion, Memberships: its regional blocks. Taux, Rate: exchange
--                  rates. Lookup, Configured: what AppConfig asks for, and what it gets.
-- The parts meet in the requests: the identity use cases run under Common.Transaction, AppConfig
-- asks the other parts through the record `Ports`, of which Referential.Lookup fills three fields,
-- every part emits the events that the outbox relays, and the audit consumer reads what the relay
-- wrote.
--
-- Conventions.
--   An identifier is a number, 0 being the empty text; a date is its number of milliseconds. A text is
--   the list of its UTF-16 units. What the source draws at random, and `new Date()`, which is read once
--   in each operation, are arguments (`id`, `Fresh`, `now`).
--   A repository is a list of rows with find by key and save; a use case is a function from the tables
--   to a result and the tables, and what was written before an exception stays written unless the
--   transaction undoes it. Events are appended to a list; their constant fields are left out.
--   A partial update is given by options: an absent field keeps its value.
--   Code outside the repository is a parameter: `Services` holds the Argon2, JWT, TOTP, SHA-256 and AES
--   functions, `lower` and `upper` are `toLowerCase` and `toUpperCase`, `show` writes the identifier of
--   a node, of which `Writes` says that it is injective and free of slashes, as a UUID is. `find_one`
--   is what the data base answers where a search names no order. Audit.Scope reads the text of an
--   identifier as the number that stands for it in Org by `read`.
--   Money is a natural number of minor units. Amounts, versions and dates are taken to stay below
--   2 ^ 53, where the numbers of the source are exact; the model has no bound.
--   The walks of `wouldCreateCycleInCorpus` and `isDescendantOf` have fuel for each row of the list and
--   two steps more, and no list exhausts it: Common.Ancestry proves it. All other loops recurse on a
--   list or a value. What the stream server answers to the audit consumer is an argument (`World`).
--
-- Not modelled: the use cases of catalogues, products, offers and features other than price grids,
-- registration and profiles, the named levels, and the product registry, which are planned. Of the
-- referential data, the lists by name are planned too, as is the loop that reads the stream of
-- attached cities. Controllers, guards, modules and migrations are wiring. Requests run one after
-- the other: concurrent transactions are left out.
pub mod Prelude
pub mod Common
pub mod Product
pub mod Identity
pub mod Engine
pub mod AppConfig
pub mod Outbox
pub mod Org
pub mod Audit
pub mod Referential
