-- ===== src/SignalHandler.antt =====
-- src/server/signal_handler.h and signal_handler.cpp: the flag that SIGTERM sets and the handler
-- that a poll of the flag runs. `installed` holds the signals that std::signal has given to
-- SignalHandlerFunction; the others keep their default action. `S` is the state that the handler
-- works on. The instance is a singleton, so its fields and the static flag are one record.
use pokemon_cpp_server.Common.{
  ℕ, suc, ◌+◌, ◌≤◌, ◌≡◌, Bool, true, false, Option, none, some, List, [], ◌∷◌, eqb, arith,
  if◌then◌else◌,
}

pub record SignalHandler (S : Type 0) : Type 0 where
  pub sigterm_handler : Option (S → S)
  pub sig_term_received : Bool
  pub installed : List ℕ

abbrev pub sigterm : ℕ
sigterm = 15

unfoldable pub any_eq : ℕ → List ℕ → Bool
any_eq n [] = false
any_eq n (m ∷ ms) = if eqb n m then true else any_eq n ms

module _ {S : Type 0} where
  -- RegisterSigTermHandler
  unfoldable pub register_sig_term_handler : (S → S) → SignalHandler S → SignalHandler S
  register_sig_term_handler handler h = record h {
    sigterm_handler = some handler;
    installed = sigterm ∷ h.installed;
  }

  -- The signal goes to SignalHandlerFunction.
  unfoldable pub is_installed : ℕ → SignalHandler S → Bool
  is_installed n h = any_eq n h.installed

  unfoldable pub set_sig_term_received : SignalHandler S → SignalHandler S
  set_sig_term_received h = record h { sig_term_received = true }

  -- SignalHandlerFunction
  unfoldable pub signal_handler_function : ℕ → SignalHandler S → SignalHandler S
  unfolding set_sig_term_received
  signal_handler_function signal h = if eqb signal sigterm then set_sig_term_received h else h

  unfoldable pub is_sig_term_received : SignalHandler S → Bool
  is_sig_term_received h = h.sig_term_received

  -- The handler, if there is one, on the state.
  unfoldable pub call_handler : Option (S → S) → S → S
  call_handler none s = s
  call_handler (some handler) s = handler s

  -- RunHandlerIfReceived: the flag is read and cleared in one step.
  unfoldable pub run_handler_if_received : SignalHandler S → S → (Bool × SignalHandler S) × S
  unfolding call_handler
  run_handler_if_received h s =
      if h.sig_term_received
      then ((true, record h { sig_term_received = false }), call_handler h.sigterm_handler s)
      else ((false, h), s)

-- What happens to the handler: SignalHandlerFunction is called for a signal, or a thread polls.
pub data Event : Type 0 where
  signalled : ℕ → Event
  polled : Event

module _ {S : Type 0} where
  unfoldable pub handle_event : Event → SignalHandler S × S → SignalHandler S × S
  unfolding signal_handler_function run_handler_if_received
  handle_event (signalled n) (h, s) = (signal_handler_function n h, s)
  handle_event polled (h, s) = let r = run_handler_if_received h s in (r.0.1, r.1)

  unfoldable pub handle_events : List Event → SignalHandler S × S → SignalHandler S × S
  handle_events [] p = p
  handle_events (e ∷ es) p = handle_events es (handle_event e p)

-- The number of times that SIGTERM arrives.
abbrev pub sigterms : List Event → ℕ
sigterms [] = 0
sigterms (signalled n ∷ es) = (if eqb n sigterm then 1 else 0) + sigterms es
sigterms (polled ∷ es) = sigterms es

-- A handler that counts its runs.
abbrev pub counting : Bool → SignalHandler ℕ
counting received = record {
  sigterm_handler = some suc;
  sig_term_received = received;
  installed = sigterm ∷ [];
}

-- The runs that a poll makes when the flag was set or a SIGTERM arrived since the last poll.
abbrev pub runs : Bool → List Event → ℕ
runs received [] = 0
runs received (signalled n ∷ es) = runs (if eqb n sigterm then true else received) es
runs true (polled ∷ es) = suc (runs false es)
runs false (polled ∷ es) = runs false es

-- For any sequence of signals and polls, a registered handler runs once for each poll that follows
-- a SIGTERM which no poll has seen.
pub handle_events-runs :
    (es : List Event) (received : Bool) (n : ℕ)
    → (handle_events es (counting received, n)).1 ≡ n + runs received es
unfolding handle_events handle_event
handle_events-runs [] received n = omega arith
handle_events-runs (signalled m ∷ es) received n =
    ground (arith, handle_events-runs es true n, handle_events-runs es received n)
handle_events-runs (polled ∷ es) true n = omega (arith, handle_events-runs es false (suc n))
handle_events-runs (polled ∷ es) false n = handle_events-runs es false n

abbrev pending : Bool → ℕ
pending received = if received then 1 else 0

runs-le-sigterms :
    (es : List Event) (received : Bool) → runs received es ≤ pending received + sigterms es
runs-le-sigterms [] received = omega arith
runs-le-sigterms (signalled m ∷ es) received =
    ground (arith, runs-le-sigterms es true, runs-le-sigterms es received)
runs-le-sigterms (polled ∷ es) true = omega (arith, runs-le-sigterms es false)
runs-le-sigterms (polled ∷ es) false = runs-le-sigterms es false

-- For any sequence of signals and polls from a clear flag, a registered handler never runs more
-- often than SIGTERM arrives.
pub handle_events-le-sigterms :
    (es : List Event) (n : ℕ) → (handle_events es (counting false, n)).1 ≤ n + sigterms es
handle_events-le-sigterms es n =
    omega (arith, handle_events-runs es false n, runs-le-sigterms es false)
