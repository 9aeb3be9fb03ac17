-- ===== src/Media/Codecs/Order.antt =====
-- src/media.rs, `order_caps_by_remote_offer`: the order of the capabilities.
use sipbot.Prelude.{
  ℕ, ◌+◌, suc, ◌≡◌, ◌≤◌, refl, sym, ap, ◌∙◌, subst, Bool, true, false, Option, none, some, get_or,
  or_else, find_first, Option-cases, arith, ◌==◌, leb, List, [], ◌∷◌, keep, if◌then◌else◌,
  Bool-cases, inl, inr, All,
}
use mathlib.Core.Option
use mathlib.Core.Path.{fun_ext}
use sipbot.Prelude.Text.{Text, text_eq, to_lowercase}
use sipbot.Prelude.Decimal.{parse_uint}
use sipbot.Dtmf.Sdp.{lines, words}
use sipbot.Media.Codecs.{
  AudioCapability, unknown_position, pt_position, is_audio_line, offered_pts, rtpmap_name,
  name_position, insert_by, sort_by_key, offer_position, order_caps_by_remote_offer,
}

module _ {ℓ} {A : Type ℓ} (key : A → ℕ) where
  -- in ascending order of the keys
  abbrev pub IsSortedBy : List A → Type 0
  IsSortedBy [] = Unit
  IsSortedBy (x ∷ xs) = All (λ y. key x ≤ key y) xs × IsSortedBy xs

  -- those with one key
  abbrev pub with_key : ℕ → List A → List A
  with_key k xs = keep (λ x. key x == k) xs

  insert_by-All :
      (m : ℕ) (x : A) (xs : List A)
      → m ≤ key x
      → All (λ y. m ≤ key y) xs
      → All (λ y. m ≤ key y) (insert_by key x xs)
  unfolding insert_by
  insert_by-All m x [] h a = (h, tt)
  insert_by-All m x (y ∷ ys) h a = elim (Bool-cases (leb (key x) (key y))) [
    | inl e ↦ rw e (h, a)
    | inr e ↦ rw e (a.0, insert_by-All m x ys h a.1)
  ]

  All-weaken : (m n : ℕ) (xs : List A) → m ≤ n → All (λ y. n ≤ key y) xs → All (λ y. m ≤ key y) xs
  All-weaken m n [] h a = tt
  All-weaken m n (x ∷ xs) h a = (omega (arith, h, a.0), All-weaken m n xs h a.1)

  insert_by-IsSortedBy : (x : A) (xs : List A) → IsSortedBy xs → IsSortedBy (insert_by key x xs)
  unfolding insert_by
  insert_by-IsSortedBy x [] s = (tt, tt)
  insert_by-IsSortedBy x (y ∷ ys) s = elim (Bool-cases (leb (key x) (key y))) [
    | inl e ↦
        let le : key x ≤ key y = ground arith in
        rw e ((le, All-weaken (key x) (key y) ys le s.0), s)
    | inr e ↦
        let le : key y ≤ key x = ground arith in
        rw e (insert_by-All (key y) x ys le s.0, insert_by-IsSortedBy x ys s.1)
  ]

  with_key-insert_by :
      (k : ℕ) (x : A) (xs : List A)
      → with_key k (insert_by key x xs) ≡ (if key x == k then x ∷ with_key k xs else with_key k xs)
  unfolding insert_by
  with_key-insert_by k x [] = refl
  with_key-insert_by k x (y ∷ ys) = ground (arith, with_key-insert_by k x ys)

  -- A stable sort: in order, and those with the same key are the same ones, in their old order.
  sort_by_key_lem :
      (xs : List A)
      → IsSortedBy (sort_by_key key xs)
        × ((k : ℕ) → with_key k (sort_by_key key xs) ≡ with_key k xs)
  unfolding sort_by_key
  sort_by_key_lem [] = (tt, λ k. refl)
  sort_by_key_lem (x ∷ xs) =
      let (sorted, same) = sort_by_key_lem xs in
      (
        insert_by-IsSortedBy x (sort_by_key key xs) sorted,
        λ k. ground (arith, with_key-insert_by k x (sort_by_key key xs), same k),
      )

-- the index of the first element that fits
abbrev pub index_of {ℓ} : {A : Type ℓ} → (A → Bool) → List A → Option ℕ
index_of p [] = none
index_of p (x ∷ xs) = if p x then some 0 else Option.map suc (index_of p xs)

abbrev pub has_pt : ℕ → Text → Bool
has_pt pt tok = elim (parse_uint 255 tok) [ none ↦ false | some p ↦ p == pt ]

abbrev pub has_name : (name line : Text) → Bool
has_name name line = elim (rtpmap_name line) [ none ↦ false | some n ↦ text_eq n name ]

-- Where a capability stands in an offer: the index of its payload type among the offered ones, or
-- else of the rtpmap line that names its codec.
abbrev pub place : (offered : List Text) → (sdp : Text) → AudioCapability → ℕ
place offered sdp cap =
    get_or
      (or_else (index_of (has_pt cap.payload_type) offered)
        (index_of (has_name (to_lowercase cap.codec_name)) (lines sdp)))
      unknown_position

shift : ℕ → Option ℕ → Option ℕ
shift i none = none
shift i (some n) = some (i + n)

shift-suc : (i : ℕ) (o : Option ℕ) → shift (suc i) o ≡ shift i (Option.map suc o)
unfolding shift
shift-suc i none = refl
shift-suc i (some n) = ap some (omega arith)

shift_zero : (o : Option ℕ) → shift 0 o ≡ o
unfolding shift
shift_zero none = refl
shift_zero (some n) = ap some (omega arith)

shift_here : (i : ℕ) → shift i (some 0) ≡ some i
unfolding shift
shift_here i = ap some (omega arith)

pt_position-index_of :
    (pt i : ℕ) (toks : List Text) → pt_position pt i toks ≡ shift i (index_of (has_pt pt) toks)
unfolding pt_position
pt_position-index_of pt i [] = unfold shift in refl
pt_position-index_of pt i (tok ∷ toks) =
    let later = pt_position-index_of pt (suc i) toks ∙ shift-suc i (index_of (has_pt pt) toks) in
    elim (Option-cases (parse_uint 255 tok)) [
      | inl e ↦
          let fails : has_pt pt tok ≡ false = rw (has_pt, e) refl in
          rw (pt_position, fails, e) later
      | inr (p, e) ↦ elim (Bool-cases (p == pt)) [
        | inl f ↦
            let holds : has_pt pt tok ≡ true = rw (has_pt, e, f) refl in
            rw (pt_position, holds, e, f) (sym (shift_here i))
        | inr f ↦
            let fails : has_pt pt tok ≡ false = rw (has_pt, e, f) refl in
            rw (pt_position, fails, e, f) later
      ]
    ]

name_position-index_of :
    (name : Text) (i : ℕ) (ls : List Text)
    → name_position name i ls ≡ shift i (index_of (has_name name) ls)
unfolding name_position
name_position-index_of name i [] = unfold shift in refl
name_position-index_of name i (l ∷ ls) =
    let later =
      name_position-index_of name (suc i) ls ∙ shift-suc i (index_of (has_name name) ls) in
    elim (Option-cases (rtpmap_name l)) [
      | inl e ↦
          let fails : has_name name l ≡ false = rw (has_name, e) refl in
          rw (name_position, fails, e) later
      | inr (n, e) ↦ elim (Bool-cases (text_eq n name)) [
        | inl f ↦
            let holds : has_name name l ≡ true = rw (has_name, e, f) refl in
            rw (name_position, holds, e, f) (sym (shift_here i))
        | inr f ↦
            let fails : has_name name l ≡ false = rw (has_name, e, f) refl in
            rw (name_position, fails, e, f) later
      ]
    ]

offer_position-place :
    (remote_sdp mline a b c : Text) (offered : List Text) (cap : AudioCapability)
    → find_first is_audio_line (lines remote_sdp) ≡ some mline
    → words mline ≡ a ∷ b ∷ c ∷ offered
    → offer_position remote_sdp cap ≡ place offered remote_sdp cap
unfolding offer_position offered_pts
offer_position-place remote_sdp mline a b c offered cap found split =
    let pts : offered_pts remote_sdp ≡ offered = rw (offered_pts, found, split) refl in
    let by_pt =
      pt_position-index_of cap.payload_type 0 offered
      ∙ shift_zero (index_of (has_pt cap.payload_type) offered) in
    let by_name =
      name_position-index_of (to_lowercase cap.codec_name) 0 (lines remote_sdp)
      ∙ shift_zero (index_of (has_name (to_lowercase cap.codec_name)) (lines remote_sdp)) in
    rw (offer_position, pts, by_pt, by_name) refl

-- The capabilities of an answer to an offer with an audio line are in the order of the offer: by the
-- index of their payload type behind the first three words of that line, or else of the rtpmap line
-- with their name. Those at the same place, or in none, are the ones that were there, in their old
-- order.
pub order_caps_by_remote_offer_lem :
    (caps : List AudioCapability) (remote_sdp mline a b c : Text) (offered : List Text)
    → find_first is_audio_line (lines remote_sdp) ≡ some mline
    → words mline ≡ a ∷ b ∷ c ∷ offered
    → IsSortedBy (place offered remote_sdp) (order_caps_by_remote_offer caps remote_sdp)
      × ((k : ℕ)
          → with_key (place offered remote_sdp) k (order_caps_by_remote_offer caps remote_sdp)
            ≡ with_key (place offered remote_sdp) k caps)
unfolding order_caps_by_remote_offer
order_caps_by_remote_offer_lem caps remote_sdp mline a b c offered found split =
    let same : offer_position remote_sdp ≡ place offered remote_sdp =
      fun_ext (λ cap. offer_position-place remote_sdp mline a b c offered cap found split) in
    subst
      (λ (key : AudioCapability → ℕ).
        IsSortedBy key (sort_by_key (offer_position remote_sdp) caps)
        × ((k : ℕ)
            → with_key key k (sort_by_key (offer_position remote_sdp) caps) ≡ with_key key k caps))
      same (sort_by_key_lem (offer_position remote_sdp) caps)
