-- ===== src/Logging/Lambda.antt =====
-- services/common/core/lambda_logging.py: the decorator that sends a handler's output to the loggers.
use edge_serverless_box.Base.{
  ℕ, zero, suc, ◌≤◌, ◌≡◌, inl, inr, refl, ap, String, Bool, true, false, Option, none, some, List,
  [], ◌∷◌, ◌++◌, arith, any_of, str_eq, ltb, if◌then◌else◌, Bool-cases,
}
use edge_serverless_box.Base.Text.{strip, rstrip, splitlines, is_empty}

-- A handler of the root logger: one that sends to VictoriaLogs, under a service's name, or another.
pub data Handler : Type 0 where
  victoria_logs : String → Handler
  other_handler : String → Handler

-- `sys.stdout` or `sys.stderr`: a stream of the process, or a `StreamToLogger` with its level.
pub data Stream : Type 0 where
  process_stream : String → Stream
  to_logger : String → ℕ → Stream

pub record Process : Type 0 where
  pub handlers : List Handler
  pub level : ℕ
  pub stdout : Stream
  pub stderr : Stream

abbrev pub log_line : ℕ → String → List (ℕ × String) → List (ℕ × String)
log_line level line rest = if is_empty (strip line) then rest else (level, rstrip line) ∷ rest

unfoldable pub log_lines : ℕ → List String → List (ℕ × String)
unfolding strip rstrip
log_lines level [] = []
log_lines level (line ∷ lines) = let rest = log_lines level lines in log_line level line rest

-- `StreamToLogger.write`: what is logged, with its level.
unfoldable pub write : ℕ → String → List (ℕ × String)
unfolding log_lines rstrip splitlines
write level buf = log_lines level (splitlines (rstrip buf))

abbrev pub is_victoria_logs : Handler → Bool
is_victoria_logs (victoria_logs name) = true
is_victoria_logs (other_handler name) = false

-- What is set up before the handler runs. The level of the root logger is its effective level.
unfoldable pub add_handler : String → Process → Process
unfolding any_of
add_handler service_name p = if any_of is_victoria_logs p.handlers then p else record p {
  handlers = p.handlers ++ victoria_logs service_name ∷ [];
  level = if ltb 20 p.level then 20 else p.level;
}

unfoldable pub set_up : Option String → String → Process → Process
unfolding add_handler
set_up none service_name p = p
set_up (some vl_url) service_name p =
    if str_eq vl_url "" then p else record (add_handler service_name p) {
      stdout = to_logger "stdout" 20;
      stderr = to_logger "stderr" 40;
    }

module _ {ℓ} (R : Type ℓ) (func : Process → R × Process) where
  -- `wrapper`: R has what the handler returns, and what it raises.
  unfoldable pub wrapper : Option String → String → Process → R × Process
  unfolding set_up
  wrapper vl_url service_name p =
      let (result, after) = func (set_up vl_url service_name p) in
      (result, record after { stdout = p.stdout; stderr = p.stderr })

  -- The wrapped handler, called again and again.
  unfoldable pub calls : ℕ → Option String → String → Process → List R × Process
  unfolding wrapper
  calls zero vl_url service_name p = ([], p)
  calls (suc n) vl_url service_name p =
      let (result, after) = wrapper vl_url service_name p in
      let (results, final) = calls n vl_url service_name after in (result ∷ results, final)

  -- How many handlers send to VictoriaLogs.
  abbrev pub senders : List Handler → ℕ
  senders [] = 0
  senders (victoria_logs name ∷ hs) = suc (senders hs)
  senders (other_handler name ∷ hs) = senders hs

  senders-append :
      (hs : List Handler) (name : String)
      → senders (hs ++ victoria_logs name ∷ []) ≡ suc (senders hs)
  senders-append [] name = refl
  senders-append (victoria_logs n ∷ hs) name = ap suc (senders-append hs name)
  senders-append (other_handler n ∷ hs) name = senders-append hs name

  senders-none : (hs : List Handler) → any_of is_victoria_logs hs ≡ false → senders hs ≡ 0
  unfolding any_of
  senders-none [] e = refl
  senders-none (victoria_logs n ∷ hs) e = ground arith
  senders-none (other_handler n ∷ hs) e = senders-none hs e

  add_handler-senders :
      (name : String) (p : Process)
      → senders p.handlers ≤ 1
      → senders (add_handler name p).handlers ≤ 1
  unfolding add_handler
  add_handler-senders name p few = elim (Bool-cases (any_of is_victoria_logs p.handlers)) [
    | inl there ↦ rw there few
    | inr missing ↦
        rw missing (omega (arith, senders-append p.handlers name, senders-none p.handlers missing))
  ]

  set_up-senders :
      (vl_url : Option String) (name : String) (p : Process)
      → senders p.handlers ≤ 1
      → senders (set_up vl_url name p).handlers ≤ 1
  unfolding set_up
  set_up-senders none name p few = few
  set_up-senders (some url) name p few = elim (Bool-cases (str_eq url "")) [
    | inl blank ↦ rw blank few
    | inr full ↦ rw full (add_handler-senders name p few)
  ]

  -- However often a handler is called in a process, its output goes to VictoriaLogs through one
  -- handler at most, and after the calls the streams are those of the process again. That holds for a
  -- handler that leaves the root logger's handlers alone, whatever it does with the streams.
  pub calls-senders :
      (n : ℕ) (vl_url : Option String) (name : String) (p : Process)
      → ((q : Process) → (func q).1.handlers ≡ q.handlers)
      → senders p.handlers ≤ 1
      → let final = (calls n vl_url name p).1 in
        (senders final.handlers ≤ 1) × ((final.stdout ≡ p.stdout) × (final.stderr ≡ p.stderr))
  unfolding calls wrapper
  calls-senders zero vl_url name p leaves few = (few, (refl, refl))
  calls-senders (suc n) vl_url name p leaves few =
      calls-senders n vl_url name (wrapper vl_url name p).1 leaves (
        omega (arith, set_up-senders vl_url name p few, ap senders (leaves (set_up vl_url name p))))
