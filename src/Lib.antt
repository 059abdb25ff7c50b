-- ===== src/Lib.antt =====
-- laskah is a gateway that spreads calls of OpenAI- and Anthropic-shaped APIs over many upstream
-- accounts. This library models the part of it that decides: which account and which upstream API
-- a call goes to, how often a key may call, who is logged in, what is left after a removal, and
-- what a script that asks for a balance may do.
--
-- The parts, and the files that model them:
--
-- - internal/balancer/balancer.go: Balancer (`Candidates`, `Order`, `Pick`, `sortGroup`,
--   `weightedShuffle`) and Balancer/Report (`ReportSuccess`, `ReportFailure`). The gateway asks it for
--   an order of the account's upstream APIs and reports each outcome to it.
-- - internal/balancer/limiter.go: Limiter (`Allow`, `Peek`, `Prune`), one bucket for a key or account.
--   `Peek` is the gate that the gateway hands to the choice of an account.
-- - internal/security/throttle.go: Throttle (`Check`, `Fail`, `Reset`, `Prune`), the lock against
--   guessed passwords.
-- - internal/security/session.go: Sessions (`Issue`, `Lookup`, `Revoke`, `RevokeUser`, `RevokeAll`,
--   `Prune`), the sessions of the administration pages.
-- - internal/store/model.go: Store/Model (upstream APIs, keys, the matching of model names).
-- - internal/store/account.go: Store/Account (`Usable`, `Exhausted`, `Charge`, `Suspend`, `Resume`, the
--   times of the queries), Store/Data (the searches) and Store/Remove (the removals).
-- - internal/store/allocate.go: Store/Data (`reindex`) and Store/Allocate (`AssignAccountGated` and what
--   it is made of).
-- - internal/store/store.go: Store/Data (`FindProvider`, `FindKeyBySecret`, `FindKeyByID`) and
--   Store/Remove (`RemoveProviders`, `RemoveKeys`).
-- - internal/store/admin.go, and the administrators in internal/store/store.go: Store/Admin
--   (`CreateSuperAdmin`, `CreateAdminUser`, `SetAdminEnabled`, `RemoveAdminUser`, `VerifyAdmin`,
--   `ResetAdminPasswordByName`, `SetAdminPassword`). A login that is let in is issued a session.
-- - internal/script/lexer.go: Script/Lexer (`tokenize`, `next`, `readString`, `readTemplate`,
--   `decodeEscape`) with Script/Lexer/Scan, Literals and Space.
-- - internal/script/parser.go: Script/Syntax (the trees) and Script/Parser (`parseProgram` and all that
--   it calls) with Collections, Primary, Operators, Statements and Run.
-- - internal/script/eval.go and array.go: Script/Values (the values, scopes and references), with
--   Convert (`toString`, `toNumber`, `looseEqual`, `compare`), and Script/Eval (`eval`, `exec`,
--   `invoke`, `arrayMethod`) with Operators, Arrays, Nodes, Statements and Interpreter.
-- - internal/script/builtins.go: Script/Values/Global (`globalValue`), Methods (`getProperty`), Apply
--   (the functions themselves) and Texts.
-- - internal/script/script.go: Script/Program (`Parse`, `evalConfig`, `BuildRequest`, `Extract`) with
--   Templates (the template variables), Requests (`readRequest`) and Results (`readResult`). It calls
--   the parser and the interpreter. A script asks an upstream account for its balance, which
--   Store/Account then judges.
--
-- How the state corresponds. A method on a pointer is a function from the state to the new state
-- and the result. Each method of the limiter, the throttle, the sessions and the balancer's
-- cursor runs under one lock, so that a sequence of calls is a sequence of steps. A map is an
-- association list without a fixed order. The lists of `Data` hold pointers, which its indexes
-- share: here a list holds the value and an index its position, and a write through a pointer is
-- a write in the list, to the first element of that id. A map or slice of a script is a reference
-- into a list of cells, and a scope a chain of references into a list of frames, so that two
-- values that share one see each other's writes; an error of Go is the failure of an Outcome, and
-- `returnSignal` is a Flow. Times are nanoseconds since Go's zero time. Text is a list of code
-- points.
--
-- Numbers. The counters are `int` and `int64` that only grow and that no run of the program
-- brings to 2 ^ 63; they are native naturals. The cursor of the balancer is a `uint64` and wraps.
-- `float64` is a parameter, the record Float of Prelude/Float; a theorem that needs an order
-- takes IsOrdered, which states what holds of the numbers other than NaN, and says so.
--
-- Loops. All recursion is structural. `shuffle` takes one round for each provider, and each round
-- takes one out, so that its fuel, the length of the pool, is exactly what it uses. The functions
-- of the script's parser that call each other further on in the input are tied on fuel, the
-- length of the source, and those of the interpreter on one unit more than `maxSteps`, since each
-- call counts a step: that neither runs out is proved, and Outcome keeps running out apart from a
-- failure. `toString` and `exportValue` follow references and may not end: they go down one level
-- more than there are cells, which is deeper than any value without a cycle, and report the
-- overflow of the stack beyond it.
--
-- Strings of a script are code points as well; where the code measures bytes, so does
-- `byte_length`. `sort.SliceStable` is an insertion sort, as it is in Go for up to 20 elements;
-- for more, the sorted result is the same if the comparator is an order, but there
-- are more calls, in another sequence, and with them more steps.
--
-- Parameters. The functions of Go on letters and floats that the script's lexer uses are the
-- record Reader of Script/Lexer, and those of its built-in functions the record Host of
-- Script/Values; `url.Parse` is an argument of `build_request`. The clock is an argument where
-- the code calls `time.Now()`. The random numbers of the balancer are a stream, and the theorems
-- hold for each. `HashToken`, `HashPassword` and `VerifyPassword` are functions; that a digest is
-- never empty, and that a password verifies against its hash, are hypotheses where a theorem
-- needs them. Whether a write to disk succeeds is an argument. Go visits a map in no fixed order:
-- where the loop that makes room in the throttle depends on it, the order is an argument.
--
-- Not modelled: the HTTP handlers and the streaming of internal/gateway, internal/admin and
-- internal/server, the wallet, the token estimates, the encryption and hashing, the checks of
-- account and key inputs, the loading and saving of the store, and the accounts' queries over the
-- network.
pub mod Prelude
pub mod Script
pub mod Store
pub mod Balancer
pub mod Limiter
pub mod Throttle
pub mod Sessions
pub mod Examples
