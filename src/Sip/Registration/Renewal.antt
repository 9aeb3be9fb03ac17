-- ===== src/Sip/Registration/Renewal.antt =====
-- src/sip.rs, `start_registration_loop`: when an account registers again, and what the board says.
use sipbot.Prelude.{
  ℕ, ◌+◌, ◌<◌, ◌≤◌, ◌≡◌, ◌⊎◌, refl, sym, arith, Bool, true, false, ltb, ◌==◌, Option, none, some,
  or_else, List, [], ◌∷◌, ◌++◌, Bool-cases, inl, inr, if◌then◌else◌,
}
use sipbot.Prelude.Text.{Text, text_eq}
use sipbot.Config.Account.{AccountConfig}
use sipbot.Status.{RegistrationStatus, StatusBoard, set, lookup, lookup-set}
use sipbot.Sip.Flows.{is_before}
use sipbot.Sip.Flows.Timing.{is_before-later}
use sipbot.Sip.Registration.{
  RegisterResult, response, register_error, sleep_time, Round, status_of, report, registration_loop,
}

-- When the next REGISTER is due after a result: five seconds before the registration runs out, or,
-- if it lasts no longer than that, when it runs out; 30 seconds after a failure.
abbrev pub IsDue : RegisterResult → (result_at next : ℕ) → Type 0
IsDue (response code expires) result_at next =
    ((code ≡ 200)
      × (((5 < expires) × (next + 5 ≡ result_at + expires))
          ⊎ ((expires ≤ 5) × (next ≡ result_at + expires))))
    ⊎ ((code == 200 ≡ false) × (next ≡ result_at + 30))
IsDue (register_error e) result_at next = next ≡ result_at + 30

sleep_time-IsDue : (r : RegisterResult) (at : ℕ) → IsDue r at (at + sleep_time r)
unfolding sleep_time
sleep_time-IsDue (response code expires) at = elim (Bool-cases (code == 200)) [
  | inl ok ↦ elim (Bool-cases (ltb 5 expires)) [
    | inl long ↦
        let l : 5 < expires = ground arith in
        let is_ok : code ≡ 200 = ground arith in
        rw (ok, long) (inl (is_ok, inl (l, omega (arith, l))))
    | inr short ↦
        let s : expires ≤ 5 = ground arith in
        let is_ok : code ≡ 200 = ground arith in rw (ok, short) (inl (is_ok, inr (s, refl)))
  ]
  | inr bad ↦ rw bad (inr (refl, refl))
]
sleep_time-IsDue (register_error e) at = refl

-- The rounds follow the inputs one by one: a REGISTER is sent when it is due and has its result
-- before the cancellation; where there are no further rounds, the inputs are used up or the next
-- result would not come before the cancellation.
abbrev pub IsRenewed :
    (cancelled : Option ℕ) → (due : ℕ) → List (ℕ × RegisterResult) → List Round → Type 0
IsRenewed cancelled due [] rounds = rounds ≡ []
IsRenewed cancelled due ((takes, r) ∷ rs) [] = is_before (due + takes) cancelled ≡ false
IsRenewed cancelled due ((takes, r) ∷ rs) (round ∷ rounds) =
    (round ≡ record { sent_at = due; result_at = due + takes; result = r })
    × ((is_before (due + takes) cancelled ≡ true)
        × ((next : ℕ) × (IsDue r (due + takes) next × IsRenewed cancelled next rs rounds)))

or_else_assoc {ℓ} :
    {A : Type ℓ} (x : Option A) (y : A) (z : Option A)
    → or_else x (some y) ≡ or_else (or_else x (some y)) z
or_else_assoc none y z = refl
or_else_assoc (some x) y z = refl

if_same {ℓ} : {A : Type ℓ} (b : Bool) (x : A) → (if b then x else x) ≡ x
if_same true x = refl
if_same false x = refl

module _ (print_status : ℕ → Text) (is_uri : Text → Bool) (a : AccountConfig) (epoch : ℕ) where
  -- The loop registers again in time, whatever the registrar answers and however long that takes:
  -- five seconds before the registration runs out (or when it does, if it lasts at most five
  -- seconds), 30 seconds after a failure; it ends only when it is cancelled.
  pub registration_loop-IsRenewed :
      (cancelled : Option ℕ) (now : ℕ) (rs : List (ℕ × RegisterResult)) (board : Option StatusBoard)
      → IsRenewed cancelled now rs
          (registration_loop print_status is_uri a epoch cancelled now rs board).0
  unfolding registration_loop
  registration_loop-IsRenewed cancelled now [] board = refl
  registration_loop-IsRenewed cancelled now ((takes, r) ∷ rs) board =
      let at = now + takes in
      let rest =
        registration_loop-IsRenewed cancelled (at + sleep_time r) rs
          (report print_status is_uri a epoch board at r) in
      elim (Bool-cases (is_before now cancelled)) [
        | inl running ↦ elim (Bool-cases (is_before at cancelled)) [
          | inl t ↦ rw (running, t) (refl, (t, (at + sleep_time r, (sleep_time-IsDue r at, rest))))
          | inr f ↦ rw (running, f) f
        ]
        | inr over ↦ rw over (is_before-later now takes cancelled over)
      ]

  -- the status of the last round
  abbrev pub last_status : List Round → Option RegistrationStatus
  last_status [] = none
  last_status (r ∷ rs) =
      or_else (last_status rs) (some (status_of print_status is_uri a epoch r.result_at r.result))

  abbrev pub lookup_in : Option StatusBoard → Text → Option RegistrationStatus
  lookup_in none k = none
  lookup_in (some board) k = lookup board k

  lookup-status_of :
      (board : StatusBoard) (now : ℕ) (r : RegisterResult) (k : Text)
      → lookup (set board (status_of print_status is_uri a epoch now r)) k ≡ (
          if text_eq (a.username ++ b'@' ∷ a.domain) k
          then some (status_of print_status is_uri a epoch now r)
          else lookup board k)
  unfolding status_of
  lookup-status_of board now (response code expires) k =
      lookup-set board (status_of print_status is_uri a epoch now (response code expires)) k
  lookup-status_of board now (register_error e) k =
      lookup-set board (status_of print_status is_uri a epoch now (register_error e)) k

  -- The status on the board after the rounds is that of the last round, under the key of the
  -- account, and stands where it was under every other key.
  pub lookup-registration_loop :
      (cancelled : Option ℕ) (now : ℕ) (rs : List (ℕ × RegisterResult)) (board : StatusBoard)
      (k : Text)
      → lookup_in (registration_loop print_status is_uri a epoch cancelled now rs (some board)).1 k
        ≡ (if text_eq (a.username ++ b'@' ∷ a.domain) k
            then or_else
                (last_status
                  (registration_loop print_status is_uri a epoch cancelled now rs (some board)).0)
                (lookup board k)
            else lookup board k)
  unfolding registration_loop
  lookup-registration_loop cancelled now [] board k =
      elim (Bool-cases (text_eq (a.username ++ b'@' ∷ a.domain) k)) [
        | inl e ↦ rw e refl
        | inr e ↦ rw e refl
      ]
  lookup-registration_loop cancelled now ((takes, r) ∷ rs) board k =
      let at = now + takes in
      let board' = set board (status_of print_status is_uri a epoch at r) in
      let rest = lookup-registration_loop cancelled (at + sleep_time r) rs board' k in
      let here = lookup-status_of board at r k in
      elim (Bool-cases (is_before now cancelled)) [
        | inl running ↦ elim (Bool-cases (is_before at cancelled)) [
          | inl t ↦ elim (Bool-cases (text_eq (a.username ++ b'@' ∷ a.domain) k)) [
            | inl e ↦ rw (running, t, rest, here, e) (or_else_assoc _ _ _)
            | inr e ↦ rw (running, t, rest, here, e) refl
          ]
          | inr f ↦ rw (running, f) (sym (if_same _ _))
        ]
        | inr over ↦ rw over (sym (if_same _ _))
      ]
