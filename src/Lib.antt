-- ===== src/Lib.antt =====
-- sudo-rs: what a command line asks for, which commands a policy permits, on which terms, and in
-- which environment they run.
--
-- A sudoers file is parsed to lines (the types of src/sudoers/ast.rs). `analyze` collects them,
-- with the files that they include, into a policy of rules, aliases, settings and settings with
-- late binding, and sorts the aliases. `check` specialises the settings for a request and asks
-- `check_permission`, which runs over the rules with `find_item` and the predicates for users,
-- groups, hosts and commands. Of a judgement `authorization` makes the terms: whether to ask for a
-- password, and the restrictions on the command, among them the lists of environment variables by
-- which `get_target_environment` builds the environment of the command. A command that is run
-- without a terminal on some stream moves its data through the ring buffer. Before a command runs,
-- `auth_and_update_record_file` lets the user authenticate, unless a session record says that this
-- was done a short while ago.
--
-- The files, and what they stand for (functions have the names of the source, structs are records,
-- enums are data types; a method on `&mut self` takes the state and returns the new one):
--   Prelude: shared names, tests on numbers, lists, strings as lists of bytes, hash maps.
--   Accounts: `User`, `Group` and their traits, of src/system/mod.rs and src/system/interface.rs.
--   Defaults: the settings, their defaults and the parsers of two of them, of src/defaults/.
--   Sudoers: src/sudoers/. Ast has the syntax tree (src/sudoers/ast.rs, src/sudoers/tokens.rs); of
--     src/sudoers/mod.rs, FindItem has `find_item`, Matchers its predicates, Aliases
--     `get_aliases`, AliasOrder `sanitize_alias_table`, Rules `matching_user_specs` and
--     `distribute_tags`, Permission `check_permission`, Check the three checks of a `Sudoers`,
--     Analyze `analyze`, and Editor `select_editor` (with parts of src/common/resolve.rs). Policy
--     has src/sudoers/policy.rs, and CharStream src/sudoers/char_stream.rs.
--   Env: src/sudo/env/. Wildcard has `wildcard_match`, Keep has `should_keep` and what it uses, and
--     Target has `get_target_environment`.
--   Resolve: `resolve_target_user_and_group` of src/common/resolve.rs, which finds the user and
--     group of a request.
--   Session: src/system/timestamp.rs and src/system/time.rs. Time has the times, Record the records
--     and their bytes, Store the file with `next_record`, Operations `touch`, `create` and
--     `disable`; Records has the same operations on a list of records, and Run sequences of them.
--     Current has the scope of the current process.
--   Cli: src/sudo/cli/mod.rs. Arguments has `normalize_arguments`, Parse `try_parse_from`, and
--     Validate `validate` with the actions.
--   Pam: the entry points of src/pam/mod.rs for authentication and the check of an account.
--   Pipeline: Attempts has `attempt_authenticate` of src/sudo/pam.rs, and Auth
--     `determine_auth_status` and `auth_and_update_record_file` of src/sudo/pipeline.rs.
--   Exec: RingBuffer has src/exec/use_pty/pipe/ring_buffer.rs, and Backchannel
--     src/exec/use_pty/backchannel.rs with the pipe of src/common/bin_serde.rs.
--
-- What lies outside is a parameter: the group database and the matcher of glob patterns (`World`),
-- the databases of users and groups with their errors (`Database`), files, directories and paths of
-- the standard library (`Files`, and `System` for the choice of an editor), the directory of the
-- time zones, the readers and writers of the ring buffer, the order of the bytes in a machine's
-- words, the readings of the clock, what the system says of processes, the PAM library, and what
-- the option parser asks of the standard library (`Std`: UTF-8, classes of characters, paths,
-- variables), and its parser of unsigned integers. A file of session records is its bytes with a position; the only error of the system
-- that its model has is the end of the file.
--
-- Fuel: `visit` of the aliases runs on one unit more than there are definitions, since it enters
-- each once; a run that exceeded it would complain. `process` runs on one unit more than
-- `INCLUDE_LIMIT`, since each level of nesting raises the include counter. `wildcard_match` runs on
-- a number of rounds computed from the lengths of the text and the pattern. `to_string` writes the
-- ten digits of a 32-bit number at most. The loops over the session records run on one unit more
-- than the file has bytes, since a record has bytes; the attempts to authenticate on the number of
-- attempts that the policy allows.
--
-- Not modelled: the parser of the sudoers file, which makes the data from which the analysis
-- starts; and what consists of calls of the system or of C libraries: the PAM library, terminals,
-- processes, signals, logging, the editing of files. The optional features for remote sudoers files
-- and AppArmor are off, and the system is Linux.
pub mod Prelude
pub mod Accounts
pub mod Defaults
pub mod Sudoers
pub mod Env
pub mod Exec
pub mod Resolve
pub mod Session
pub mod Pam
pub mod Pipeline
pub mod Cli
