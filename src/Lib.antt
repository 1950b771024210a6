-- ===== src/Lib.antt =====
-- Verification of the asynchronous agreement protocol (README.md): binary Byzantine agreement among
-- n processes of which at most t < n/3 are faulty.
--
-- The program. Each node runs a stack of services. A service handles one message at a time
-- (`OnMessage`) and answers through a context (`Broadcast`, `SendResult`); the upper service hands
-- the lower one an adapter as its context. At the bottom stands A-Cast (reliable broadcast), on it
-- Vote, IVSS and ICC (common coin), and on these the ABA loop. `ServiceManager` runs the top
-- service of a node over channels, and `Network` delivers broadcasts in any order.
--
-- The model. A handler is a function from the state of its service to the new state and the list of
-- its effects, the calls on the context in their order (Context.antt). An adapter is a function on
-- such lists. Shared helpers are in Base.antt and below: Go's maps are association lists
-- (Base/Maps), sets of ids are lists of distinct ids (Base/Members), `int` values that may be -1
-- are integers (Base/Int), and ids, counts and rounds are natural numbers; subtraction stops at 0,
-- which changes no comparison that the code makes. Base/Counting has the quorum arguments.
--   * services/acast.go: ACast.antt. ACast/Defs has the types and `on_message` (`OnMessage`),
--     with one function for each case of its switch. ACast/System runs one broadcast among n
--     processes, ACast/Network whole services with any number of broadcasts. ACast/Local,
--     LocalSteps and Thresholds are about one process, Origins about a MSG, Quorums, Agreement,
--     Totality and Validity about all, Projection carries them over to whole services.
--   * services/vote.go: Vote.antt. Vote/Types has the data, Vote/Progress `checkProgress` with
--     its three phases, Vote/Service the entry points and the adapter. Vote/Decision, Majority,
--     Moves, Runs, Ballots, Rounds, Agreement, Revotes and Echo have the proofs.
--   * services/aba.go: Aba.antt. Aba/Types has the data and the interface of the coin
--     (services/icc.go), Aba/Complete the COMPLETE votes (`broadcastComplete`,
--     `handleCompleteDelivery`), Aba/Service the rounds (`Start`, `startRound`, `OnMessage`,
--     `dispatchMessage`, `checkRoundProgress`) and the adapters. A callback that starts a round
--     is a call of the argument `restart`; under the mutex of Vote that argument is `held`, which
--     never returns. Aba/Rules, Decided, Adapters and Rounds have the rules that every call
--     keeps, Runs the runs of one process, Blocking the mutex, Pending, Ends and Fuel the number
--     of rounds within one call, Coin the coin of services/icc.go, Echo the handling of the own
--     COMPLETE vote.
--   * services/certification.go: Certification.antt, proofs in Certification/Pairs.
--   * services/service.go: Manager.antt has the loop, one round per choice of a `select`;
--     Manager/Order runs it with the network and the reader of its results.
--   * services/ivss.go: Ivss.antt. Ivss/Types has the data, Sets the set M and the polynomials
--     that agree, Messages what is sent, Direct the shares, the points and `StartReconstruction`,
--     Service the deliveries and `OnMessage`. Ivss/Candidates, Maximal, Repeated, Faults, Honest,
--     Verified, Steps, Sharing, Invariant, Agreeing, Recovery, Unanimous, Entries, RevealSteps,
--     Reveals and Readies have the proofs.
--   * services/icc.go: Icc.antt. Icc/Types has the data, Coin `checkDecision`, Progress
--     `checkProgress` with its phases, Service the entry points and the adapters. Icc/Decision,
--     Values, Phases, Sharings, Dealing, Steps, Lifecycle, Handlers, Invariant and Locking have
--     the proofs.
--   * services/network.go: Network.antt, with the pending writes of the goroutines of
--     `Broadcast`; Network/Arrivals has the proofs, Network/Nodes the nodes (node.go) and how
--     main.go registers them.
--   * utils/polynomial.go: Polynomial.antt. Polynomial/Defs has `Evaluate` and
--     `GetUnivariatePolynomial`, Interpolate has `NewRandomSymmetricPolynomial` and
--     `InterpolateAtZero`; Polynomial/Sums, Slices, Random and Dealing have the proofs on the
--     first three; those on `InterpolateAtZero` are built up in Residues, Products, Weights,
--     Division, Lagrange, Reconstruction, Consistent and Secret.
--   * main.go and gen.go: Simulation.antt. Simulation/Text has the use of Printf and Scan, on
--     texts as lists of codes, Generator the generator of inputs, Setup `main` up to the start of
--     the nodes; Simulation/Resilience has the proofs.
--   * Tests.antt and below: runs on concrete inputs.
--
-- A handler of Ivss and Icc ends in an `Attempt` (Attempt.antt): it returns, it panics at a nil, or
-- it waits for the mutex of a sharing instance that its own goroutine holds. Icc calls Ivss as
-- modelled; the ABA loop takes the coin as an interface, and shares the certification with it;
-- Aba/Coin puts services/icc.go behind it.
-- Outside the model, as parameters: the hash and clock behind the uuid of a broadcast
-- (`NewACastMessage`), json.Marshal and json.Unmarshal of payloads, the formats of uuids and
-- instance ids, random numbers, the inverse modulo the prime, strconv.Atoi,
-- and math.Ceil. Loops are recursion on
-- the list or on the rounds that are left, except in `startRound`,
-- where the fuel is the number of rounds that may begin within one call: each but the last has
-- buffered messages, so one more than these is enough (Aba/Fuel), and a call with less ends as
-- `out_of_fuel`.
-- The digits of a number are printed with one more fuel than the number, which is never used up.
-- The network is a step relation: any process may handle any authentic message at any time, any
-- number of times. A message is authentic if its sender is one of 1..n and, where that sender is
-- honest, it broadcast the message; the code itself takes the sender on trust. That all messages
-- arrive in the end is stated of a run as `Settled`.
-- Not modelled: loggers (they change no state), mutexes other than those of Vote and of a sharing
-- instance (each method is one atomic step), nil entries inside the coefficients of a polynomial that
-- is received, negative sizes in the input of main.go and gen.go, numbers there
-- that are not decimal or do not fit into an `int`, the flags, the wait for the results and the
-- output of main.go, and utils/logger.go.
pub mod Base
pub mod Context
pub mod Attempt
pub mod Aba
pub mod ACast
pub mod Certification
pub mod Ivss
pub mod Icc
pub mod Network
pub mod Manager
pub mod Polynomial
pub mod Simulation
pub mod Vote
pub mod Tests
