-- ===== src/Lib.antt =====
-- A verification library for isched, a multi-tenant GraphQL server in C++. The server parses a
-- query into a syntax tree, its executor walks the tree and calls resolvers behind role and
-- organization gates, the authentication middleware lets requests in and keeps sessions, the
-- organization manager keeps tenants, whose SQLite databases are behind a connection pool, and the
-- subscription broker routes events to WebSocket sessions.
--
-- Paths below are from src/main/cpp/isched/ of the repository.
--
-- Common: tests, lists, maps and decimal numbers that the modules share. A machine integer is a
-- natural number with its wrap-around written out where the source can reach it; a text is a list
-- of byte codes; an unordered map is an association list, and no order of it is relied on.
-- Ast: shared/ast/isched_NodeType.hpp and isched_CustomNode.hpp, the tree, with children that are
-- never null. Ast/Visitor: isched_NonRecursiveVisitor.hpp, its stack loop on fuel, twice the size
-- of the tree, which is enough since each node is pushed and popped once.
-- Broker: backend/isched_SubscriptionBroker.cpp and .hpp. Each operation is one step under the
-- lock that it takes. Buckets and Registry are the records with their two indices, Operations the
-- class's methods, Sessions, Refinement, Delivery and AuthSessions what they mean. The loop of
-- disconnect_session runs on fuel, one more than the number of records.
-- Gql: backend/isched_GqlExecutor.cpp, isched_GqlExecutor.hpp, isched_GqlExecutor_field_nodes.cpp,
-- isched_multi_dim_map.hpp and isched_gql_error.hpp. TypeRefs, Deprecation and Fields are the
-- helpers of introspection, Types its object for a whole type; Schema is the maps of a schema's
-- types; Complexity is the analysis of a query; Json and Arguments are JSON values and what a
-- field's arguments become; Resolvers is the registry; Gates are the checks before a top-level
-- resolver; Execution is the resolution of selection sets, Documents that of a whole request from
-- its parsed tree on. A node denotes an action on the execution's state, so its recursion is
-- structural and needs no fuel. A resolver is a pure function that returns or throws; the C++
-- library's conversions of numbers are parameters.
-- Auth: backend/isched_AuthenticationMiddleware.cpp. RateLimits is the lockout, Sessions the
-- sessions in memory, Requests the validation of requests and tokens; the JWT library and the
-- database's row of a session are parameters.
-- Database: backend/isched_DatabaseManager.cpp and .hpp. Transactions, Pool and Migrations;
-- Snapshots (the configuration snapshots), Roles, Organizations and Admins (the system database,
-- with the tenants' settings), Users, LoginSessions, DataSources and SchemaDocuments (the
-- databases of the tenants). A table is the list of its rows, and each SQL statement, which is
-- part of the source, is the function on rows that SQLite documents for it (Tables); the courses
-- that the methods share are in Statements. Whether SQLite opens, prepares, steps and commits is
-- an argument of each operation (Answers), so a theorem holds however it answers, within the
-- conditions that it states. Where a transaction can stay open (Migrations, Snapshots), the rows
-- that are saved stand beside those of the open transaction, and a ROLLBACK whose answer the source
-- ignores has one too. What a migration's SQL does is a parameter, and it begins and ends no
-- transaction. A statement that fails may also make SQLite roll an open transaction back by itself,
-- which is an argument of the operations that change the stored rows or are in a resolver that does.
-- Texts hold no NUL byte, at which SQLite would cut them. LoginSessions meets Auth in Revocation: what
-- validate_token reads of a session.
-- Tenants: backend/isched_TenantManager.cpp, the organization manager.
-- Metrics: backend/isched_MetricsCollector.cpp; floating-point numbers are a parameter.
-- Config: shared/config/isched_config.cpp: the order of the providers, callbacks and the lockout
-- configuration. Config/Values are configuration values and their texts, Config/Providers the file
-- and the environment (Saving and Environment are what each keeps and reaches), Config/Manager the
-- manager with the server's settings, tenants, snapshots and validation. A file is a text that may
-- be missing or not open; floating-point numbers are a type of their own.
-- Crypto: backend/isched_CryptoUtils.cpp. Wire is the way from encrypt_secret to decrypt_secret,
-- Hex sha256_hex; what OpenSSL computes is a parameter, with what it documents as hypotheses.
-- Api: the built-in resolvers of backend/isched_GqlExecutor.cpp that are on these parts: Login
-- (with the lockout of Auth, the accounts of Database and create_session of
-- backend/isched_AuthenticationMiddleware.cpp), Logouts (login sessions and the broker),
-- Bootstrap (the resolvers that are open to everyone), Configurations and Rollbacks (on
-- Database/Snapshots), Users (behind the gates of Gql/Gates), Organizations with its pages, and
-- Administration (roles and the changes of organizations); Replies is what those of configurations
-- return. The clock is read once in a resolver; new ids, password hashes and the grammar are
-- arguments.
-- Files: shared/fs/isched_fs_utils.cpp, the matching of one segment of a file pattern. The loop
-- runs on fuel, one more than the lengths of the name and the pattern multiplied, each raised a
-- little (enough), which suffices since a step shortens the pattern or moves the mark on. Matching
-- says what a pattern matches, Steps what a step keeps, Search puts them together.
-- Samples: tests, and the theorems at concrete inputs.
--
-- Not modelled: the PEGTL grammar, the HTTP and WebSocket server, the statements that create
-- tables, the REST data source, the asset registry, the hashing of passwords, and the Python and
-- TypeScript parts; most are calls of other libraries. Log lines and the texts of error messages
-- are left out. In Gql a resolver is a value; the resolvers of Api are modelled beside it, with
-- their effects, and those of data sources, documents and metrics are not modelled.
pub mod Common
pub mod Ast
pub mod Broker
pub mod Gql
pub mod Auth
pub mod Database
pub mod Tenants
pub mod Metrics
pub mod Config
pub mod Api
pub mod Files
pub mod Crypto
mod Samples
