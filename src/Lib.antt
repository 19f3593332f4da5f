-- ===== src/Lib.antt =====
-- The verification library of LAS, a router control daemon written in Go.
--
-- The program keeps one JSON configuration (internal/config/config.go), checks it
-- (internal/config/validate.go), turns it into a plan of commands, files and warnings
-- (internal/router, internal/control/plan.go) and carries the plan out
-- (internal/control/executor.go); a small HTTP server (internal/web/server.go) drives these.
--
-- Files and what they model:
--   Config, Config/*       the structs of internal/config/config.go, one record each, and `Default`
--   Net, Net/*             Go's netip.ParsePrefix, net.ParseIP and net.SplitHostPort, as the checks
--                          use them
--   Errors                 error values and the loops that return the first error
--   Names                  identifierRE, validateCIDR, validateResolver, validDomainName
--   Validate, Validate/*   Config.Validate and the functions that it calls
--   Fmt                    fmt.Sprintf and strconv for the verbs and bases that the program uses
--   Control                internal/control/plan.go: plans and their growth, Command.String
--   Control/Shell          a reader of POSIX shell words, which the text of a command is read back by
--   Os, Os/Memory          the calls of the operating system, with the behaviour that is assumed of
--                          them, and a machine in memory that has it
--   Control/Files          writeFile of internal/control/executor.go
--   Control/Executor       Execute and runCommand of internal/control/executor.go
--   Router, Router/*       internal/router/nft.go: set names, match expressions, actions, the order of
--                          the rules, the chains and BuildNftables
--   Builder, Builder/*     internal/router/builder.go: `BuildPlan`, and below it the functions that add
--                          the steps of each section and render their files: Host, Certificates,
--                          Tunnels, Routing, Services, Platform and Security. Builder/Trace has the calls
--                          that they make on a plan, Builder/Options the helpers on texts,
--                          Builder/Sound and Builder/Apply what is asked of the machine
--   Store, Store/*         `Load`, `Save` and `Init` of internal/config/config.go
--   Web, Web/*             internal/web/server.go: requests and responses (Web/Messages), the handlers and
--                          the mux (Web), diagnosticsCommand (Web/Diagnostics); internal/control/status.go
--                          (Web/Status); the server over a sequence of requests (Web/Refines, Web/Runs)
--   Cli, Cli/*             cmd/lasd/main.go
--
-- The configuration is read by the checks (`Validate` takes a `Config`) and by the builder of plans.
-- `build_plan` checks it and then makes the plan from the list of the calls that the source makes on
-- it, in their order. The server and the command load and save it through `Store`, build plans of it
-- and hand them to the executor.
-- A plan is a list of steps that the executor takes one by one; a command's text is for the user, who
-- may paste it into a shell, while the executor hands program and arguments to the system as they are.
--
-- The operating system is a parameter: a state, the content of each path, and one function for each
-- call, each from a state to a state and an outcome. `IsLawful` says what the documentation of the
-- calls says: which paths a call may change, that a new temporary file was not there before, and that
-- a rename moves the content or does nothing, as a removal does, whose error the source ignores. Theorems about what a file holds afterwards assume
-- it, the ones about the order of steps and dry runs do not.
--
-- Code outside of the repository is a parameter: encoding/json, in `Store` for the configuration and in
-- `Web` for requests; the looks at files by which `Load` and `Init` tell a missing file from others;
-- url.Parse, the clock and the file server; and the order in which Go visits the keys of a map, on
-- which the hook of certbot depends. What is assumed of them stands in `IsFaithful` and `RoundTrips`.
-- `RunsKeep` assumes of the commands that the server starts by itself, the probes of `ProbeStatus` and
-- those of `diagnosticsCommand`, that they leave the configuration's file alone, and `NeverFails` is a
-- machine whose calls all succeed.
--
-- A handler of the server is a function from a request and a state of the machine to a state and a
-- response. `Reaches` relates the states that a server gets to by answering requests one by one; the
-- timeouts of the handlers are not modelled, a command that is killed is one of the endings of a run.
--
-- A Go string is a native text and its bytes are read over its code points; `int` is an integer, of
-- which the program compares values and prints them. The one product, of a cache size by two
-- (`double`), wraps around at 64 bits as Go's does. A map that is only asked
-- whether it holds a key is the list of its keys. An error of the checks keeps its format and its
-- arguments and is not rendered; an error of the executor is its text. Two definitions take fuel: the
-- reader of IPv6 groups has eight rounds, as many as an address has groups, and the printer of a
-- number n has n + 1, as a number has no more digits.
--
-- A text that the source writes piece by piece, with warnings on the way, is the list of its pieces
-- with the list of the warnings.
--
-- Not modelled: the loop of `Serve` around the listener (net/http, its shutdown and its goroutine), the
-- logger, the parsing of the flags, the JSON rendering of plans and responses, two requests at one time,
-- the browser code of web/, and the scripts and units that install and update the program.
pub mod Prelude
pub mod Config
pub mod Net
pub mod Errors
pub mod Fmt
pub mod Os
pub mod Names
pub mod Validate
pub mod Control
pub mod Router
pub mod Builder
pub mod Store
pub mod Web
pub mod Cli
