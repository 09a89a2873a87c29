-- ===== src/Lib.antt =====
-- The System and Meta services of ADDP and the encryption that all services share.
--
-- ADDP is a data platform of several Go services. The System service (system/backend) is the one
-- that owns users, tenants, resources (connections to databases and object stores) and the audit
-- log; the others call it. The Meta service (meta/backend) scans those resources and keeps what it
-- finds as a tree of nodes with items. The development models the System service, from its HTTP
-- handlers down to the statements that it sends to the database, common/utils/encryption.go, and of
-- the Meta service the scanner of object stores, the scan service and the resource service.
--
-- Parts:
--   Common       shared types: Go's int (Int), results and the state-and-error monad of a service
--                method (Outcome: S → Result E A × S), maps as association lists (Dict).
--   Db           what GORM and PostgreSQL do, as a parameter: `Table` has the statements that the
--                repositories issue on one table, `IsTable` their documented laws. Db.Model is a
--                table in memory that meets every law; Db.Effects says what a write does to rows.
--   Text         the functions of Go's `strings` and `fmt` that the Meta service uses, over native
--                texts; Parts and Inside are about the parts of a path and what lies in it.
--   Cipher       common/utils/encryption.go: Encrypt and Decrypt. AES, GCM, base64 and the random
--                source are the parameter `Crypto` with the laws `IsCrypto`.
--   System       system/backend/internal:
--     Models       models/*.go. A row is a record without its timestamps.
--     Store        the four tables as one state, the transaction, bcrypt, and the error messages.
--     *Repository  repository/*_repository.go, one function per method.
--     Users        service/user_service.go and pkg/utils/password.go. Atomic, Inversion and Refines
--                  are about what a method leaves behind, Visible and Login about what it returns.
--     Tenants      service/tenant_service.go, with the closures that it hands to a transaction.
--     Resources    service/resource_service.go. Secrets is about the connection info, Views about
--                  the masked and the opened copies, Access about who gets what, Isolation and
--                  Changes about what a method may write, Frame about what it leaves alone.
--     Logs         service/log_service.go and middleware/logger.go.
--     Auth         middleware/auth.go, the token of a login, pkg/utils/jwt.go. The JWT library is
--                  the parameter `Jwt` with the laws `IsJwt`.
--     Api          api/*_handler.go and the routes of api/router.go, but not the health check and
--                  the internal /config, which read no database. What Gin and strconv read of a
--                  request is the record `Context` and the parameter `Strconv`; a body is `none`
--                  where its binding fails.
--     StorageEngine  TestConnection of service/storage_engine_service.go. The PostgreSQL and MinIO
--                  clients are the parameter `Clients`; the handlers take the test's outcome as one.
--     Bootstrap    InitSuperAdmin of repository/database.go.
--     Access       the abstract specification: the steps that a caller may make on users, tenants
--                  and resources, as the guards of the services and their comments state them, with
--                  the invariants of users and tenants (Invariant, Root, Isolation). Two rows of
--                  system/README.md differ from the code, and the code is followed: super
--                  administrators edit and delete ordinary users, and registration is open while
--                  it is configured so.
--     Requests     the writes as a data type, and runs of them. Safety and Allowed relate them to
--                  Access; Ownership is about resources, Aside about the methods that leave them.
--     Samples, Examples   the database in memory, stand-ins for bcrypt, AES and JWT, and the
--                  theorems at concrete inputs.
--
--   Meta         meta/backend/internal:
--     Objects      what the object scanner reports (scanner/types.go), and the reserved names.
--     S3Scanner    scanner/s3_scanner.go: the loop of scanBucket. Buckets has the methods around it;
--                  Aggregates and Report are about directories and totals, Reported about names.
--     Models       the rows (models/*.go), Store the statements on nodes and items as the parameter
--                  `Forest` with its laws `IsForest`; Store.Model is a database in memory.
--     Nodes        the node and item functions of service/scan_service_new.go (Upsert and Placed
--                  are about upsertNode); Persist and
--                  ObjectScan persistObjectMetas and scanObjectStoragePaths; SchemaScan
--                  scanDatabaseSchema; ScanService the scans of resources and their logs (Runs).
--     Connection   common/models/resource.go, scanner/factory.go and the kinds of resources.
--     Tree         the invariant of the nodes: depths and paths follow the parents. Writes is about
--                  single statements, Upsert, Persist, Roots and Scan about the scan above them.
--     ResourceService  service/resource_service.go.
--     Examples     a bucket and a database in memory, and the theorems there.
--
-- The scan service takes a scanner as a record of operations (ObjectScan.ObjectScanner,
-- SchemaScan.Scanner), as it takes Go interfaces; the S3 scanner fills the first. Cascading deletes
-- of nodes are laws of `Forest`: what a delete leaves, and what it cannot take. The time of a scan
-- is one argument. A Go map is a list and is visited in its order.
--
-- How the code corresponds: a Go method that returns (T, error) is a `Service`, a function from the
-- database's state to a result and a state, its guards in the order of the code. `*uint` is an
-- Option, `uint` a natural number that the database assigns, `int` an integer that wraps at 64
-- bits. A nil dereference is the error `panic`. A request's calls to the database run one after the
-- other: two requests that overlap are not modelled. A failed statement changes nothing, and a
-- statement may fail at any time, so no theorem says that one succeeds. The salt of bcrypt and the
-- nonces of AES come from an argument that counts draws.
--
-- Not modelled: GetConnectionInfo of storage_engine_service.go, the configuration, the schema
-- migrations, the SQL of the PostgreSQL and MySQL scanners, the readers GetSchemasByResource,
-- ListAvailableSchemas and ListObjectStorageNodes, the handlers of the Meta service, and the other
-- services (gateway, manager, transfer) with their front ends. No loop needs fuel but the printing
-- of a number, which has one more than the number: each other one is a recursion on a list.
pub mod Common
pub mod Db
pub mod Cipher
pub mod Text
pub mod Meta
pub mod System
