-- ===== src/Lib.antt =====
-- MaidCafe: a daemon that watches and operates one host, a cloud service that its clients reach it
-- through, and maidkit-priv, a small helper that runs as root and does for the daemon what a
-- root-owned grant file allows. This library models the helper and the parts of the daemon that
-- keep a state of their own, and proves what callers rely on.
--
-- The helper, internal/privfs. The daemon calls it through sudo with a command line, the helper
-- parses it strictly, loads the grant file, and either changes a file below a granted directory or
-- runs one of a fixed set of commands.
--   Privfs/Names     the anchored regular expressions that names are matched against
--   Privfs/Mode      ParseMode, parseOctal, checkMode (privfs.go)
--   Privfs/Path      safeRel (privfs.go), over filepath.Clean in Base/Filepath
--   Privfs/Units     systemd grants and their command (privfs.go)
--   Privfs/Packages  package manager grants and their commands (packages.go)
--   Privfs/Firewall  firewall grants, rules and commands (firewall.go); Firewall/Address is what they
--                    use of package net
--   Privfs/Files     Write, Mkdir and Remove over a tree of files, with a record of the system calls
--                    that fail (privfs.go)
--   Privfs/Grants    LoadSet, buildProfile and the lookups (privfs.go)
--   Privfs/Cli       ParseArgs (cli.go)
--   Privfs/Run       runSystemd, runPackages, runFirewall and runExternal (cli.go)
--
-- The daemon, internal/daemon.
--   Daemon/Tasks      opTask: a long operation, its stages, its retained output and its end (tasks.go)
--   Daemon/TaskStore  taskStore: the recent tasks by id, with the eviction of old ones (tasks.go)
--   Daemon/Logs       the alert rules with their cooldown, and the upload buffer (logs.go)
--   Daemon/Files      the file API: filePolicy and resolve (files.go). Files/Host is what it asks of
--                     the system, Files/Reads and Files/Changes are its operations, Files/Helper the
--                     calls of the privileged helper (files_priv.go), Files/Dispatch the routing of
--                     the actions; Files/Calls and Files/Gives are rules for computations
--   Daemon/Webhook    WebhookExecutor (webhook.go): its tables and credentials, Webhook/Slots the
--                     concurrency slots, Webhook/Script templates and command lines, Webhook/Execute
--                     the runs
--   Daemon/ImageRef   image references: parsing and printing (imageref.go)
--   Daemon/Stream     StreamHub, its bounded channels and the parameters of a stream (stream.go)
--
-- Base holds what all of them share: Boolean tests on numbers, lists measured by native numbers, Go
-- strings as lists of bytes with the functions of package strings that are called, results, and
-- filepath.Clean. In each part a file named for what it proves holds the theorems, and Tests holds
-- runs and the theorems at concrete inputs.
--
-- How the code is rendered. A Go string is its bytes. An error is its kind, without its text. A map
-- is an association list in which the newest entry of a key counts, or, where only its keys matter,
-- the list of them. A moment of time is a number that the caller passes. A method that holds a
-- mutex throughout is one step; logUploadBuffer.Flush, which uploads without the lock, is two, with
-- other calls between them. Three methods are one step each although a part of them is outside the
-- lock: opTask.finish, which closes its channel after it, cancelRun, which cancels after it, and
-- taskStore.add, which asks a task twice whether it is over. A second close, which panics, is a
-- second count. A goroutine's run of a task is the sequence of its calls. TrimSpace has the length
-- of its text as fuel, since each round drops a byte or more; an IPv6 address has eight groups at
-- most, which bounds its loop. readDirLimited has two rounds more than the entries that it wants,
-- since each but the last adds one, and the replacement of placeholders has the length of its text.
-- copyFileTree recurs on what the tree below its source held when it was read. Every other function
-- recurs on a list. A regular expression is a function that scans the text.
--
-- Parameters. What the system answers (Files.Os, Grants.Host, Run.Machine with the way a command
-- ends), what the configuration library reads from the grant file, and what a compiled expression
-- accepts are arguments of the definitions that use them. One theorem, on exit codes, supposes what
-- os/exec documents: that a command which ends with the code 0 has succeeded.
--
-- In the file API the system is a record of answers, each of which may depend on all the calls
-- before it; of these calls a list is kept. What the executor asks of the machine, the codes of
-- signatures among it, is an argument too. Theorems on the file API suppose what package os
-- documents: that an open file that nobody changes is read as it is and has its length, and that a
-- directory is delivered in batches of its entries until its end. That roots are absolute is
-- checked when the configuration is loaded.
--
-- Not modelled: the cloud service, the relays and terminals, the HTTP handlers, the collectors, the
-- metric alarms, the scheduled jobs, the histories of processes and the audit log, the clients of
-- registries, the configuration files of the daemon and the database, which are mostly input and
-- output or calls of libraries; in the helper the dispatch of Run, the texts of the audit entries
-- and of messages; symbolic links below a profile's directory, which os.Root follows inside it.
pub mod Base
pub mod Privfs
pub mod Daemon
