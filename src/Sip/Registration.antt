-- ===== src/Sip/Registration.antt =====
-- src/sip.rs: `start_registration_loop`. What each REGISTER comes to, and how long it takes, is an
-- input of the rsipstack crate; the loop runs as long as the inputs last. Times are seconds.
pub mod Renewal
use sipbot.Prelude.{
  ℕ, ◌+◌, ◌-◌, ◌*◌, Bool, true, false, ltb, ◌==◌, Option, none, some, get_or, List, [], ◌∷◌, ◌++◌,
  if◌then◌else◌, ◌>>=◌,
}
use sipbot.Prelude.Text.{Text, codes}
use sipbot.Config.Account.{AccountConfig}
use sipbot.Config.Transport.{udp, parse, as_str}
use sipbot.Status.{RegistrationStatus, StatusBoard, set}
use sipbot.Sip.Address.{normalize_sip_addr}
use sipbot.Sip.Flows.{is_before}

-- The final response, with the expiry that the registrar then grants, or an error as it is printed.
pub data RegisterResult : Type 0 where
  response : (code expires : ℕ) → RegisterResult
  register_error : Text → RegisterResult

-- The seconds to the next REGISTER.
unfoldable pub sleep_time : RegisterResult → ℕ
sleep_time (response code expires) =
    if code == 200 then (if ltb 5 expires then expires - 5 else expires) else 30
sleep_time (register_error e) = 30

-- One round of the loop: when the REGISTER is sent, when its result is there, and the result.
pub record Round : Type 0 where
  pub sent_at : ℕ
  pub result_at : ℕ
  pub result : RegisterResult

unfoldable pub transport_kind : AccountConfig → Text
transport_kind a = as_str (get_or (a.transport >>= λ t. parse t) udp)

-- `print_status` is how a status code is printed, `print_error` how an error is.
module _ (print_status : ℕ → Text) (is_uri : Text → Bool) (a : AccountConfig) (epoch : ℕ) where
  unfoldable pub status_of : ℕ → RegisterResult → RegistrationStatus
  unfolding transport_kind
  status_of now (response code expires) = record {
    username = a.username;
    domain = a.domain;
    registered = code == 200;
    expires = if code == 200 then some expires else none;
    transport = some (transport_kind a);
    last_error =
        if code == 200 then none else some (codes "registration failed: " ++ print_status code);
    updated_at = some (epoch + now);
  }
  status_of now (register_error e) = record {
    username = a.username;
    domain = a.domain;
    registered = false;
    expires = none;
    transport = some (transport_kind a);
    last_error = some (codes "registration error: " ++ e);
    updated_at = some (epoch + now);
  }

  abbrev pub report : Option StatusBoard → ℕ → RegisterResult → Option StatusBoard
  report none now r = none
  report (some board) now r = some (set board (status_of now r))

  -- The rounds whose result came before the cancellation, and the board.
  unfoldable pub registration_loop :
      (cancelled : Option ℕ)
      → ℕ
      → List (ℕ × RegisterResult)
      → Option StatusBoard
      → List Round × Option StatusBoard
  registration_loop cancelled now [] board = ([], board)
  registration_loop cancelled now ((takes, r) ∷ rs) board =
      let at = now + takes in
      let rest = registration_loop cancelled (at + sleep_time r) rs (report board at r) in
      if is_before now cancelled
      then (if is_before at cancelled
          then (record { sent_at = now; result_at = at; result = r } ∷ rest.0, rest.1)
          else ([], board))
      else ([], board)

  -- The loop does not begin where the server is no URI.
  unfoldable pub start_registration_loop :
      (cancelled : Option ℕ)
      → List (ℕ × RegisterResult)
      → Option StatusBoard
      → List Round × Option StatusBoard
  unfolding registration_loop
  start_registration_loop cancelled rs board =
      if is_uri (normalize_sip_addr (get_or a.proxy a.domain))
      then registration_loop cancelled 0 rs board
      else ([], board)
