-- ===== src/Dtmf/Sdp/Inject/Once.antt =====
-- src/media.rs, `inject_telephone_event_sdp`: what the document is afterwards, line by line.
use sipbot.Prelude.{
  ℕ, zero, suc, ◌≡◌, ◌≤◌, ◌<◌, ◌⊎◌, inl, inr, refl, sym, ap, ◌∙◌, arith, All, get_or, Option-cases,
  Bool, true, false, Option, none, some, List, [], ◌∷◌, ◌++◌, length, length-append, leb,
  Bool-cases,
}
use sipbot.Prelude.Text.{Text, codes, join}
use sipbot.Prelude.Decimal.{to_string}
use sipbot.Dtmf.Sdp.{TelephoneEventInfo, lines, words, build_rtpmap_line, build_fmtp_line}
use sipbot.Dtmf.Sdp.Inject.{
  last_index, set_line, insert_at, crlf, is_media_line, is_rtpmap_line, has_telephone_event,
  with_pt, insert_idx, event_lines, inject_lines, inject_telephone_event_sdp, injected_has,
  left_as_it_is,
}

module _ {ℓ} {A : Type ℓ} (p : A → Bool) where
  -- the last element that fits, with what stands before and behind it
  record Last (xs : List A) (i : ℕ) : Type ℓ where
    pre : List A
    last : A
    post : List A
    split : xs ≡ pre ++ last ∷ post
    place : length pre ≡ i
    fits : p last ≡ true
    none_later : All (λ y. p y ≡ false) post

  none_fits : (xs : List A) → last_index p xs ≡ none → All (λ y. p y ≡ false) xs
  unfolding last_index
  none_fits [] h = tt
  none_fits (x ∷ xs) h = elim (Option-cases (last_index p xs)) [
    | inl e ↦ elim (Bool-cases (p x)) [
      | inl holds ↦ absurd (ground (arith, h, e, holds))
      | inr fails ↦ (fails, none_fits xs e)
    ]
    | inr (i, e) ↦ absurd (ground (arith, h, e))
  ]

  last_index-Last : (xs : List A) (i : ℕ) → last_index p xs ≡ some i → Last xs i
  unfolding last_index
  last_index-Last [] i h = absurd cc
  last_index-Last (x ∷ xs) i h = elim (Option-cases (last_index p xs)) [
    | inl e ↦ elim (Bool-cases (p x)) [
      | inl holds ↦
          let first : i ≡ 0 = ground (arith, h, e, holds) in
          record {
            pre = [];
            last = x;
            post = xs;
            split = refl;
            place = sym first;
            fits = holds;
            none_later = none_fits xs e;
          }
      | inr fails ↦ absurd (ground (arith, h, e, fails))
    ]
    | inr (j, e) ↦
        let l = last_index-Last xs j e in
        let next : i ≡ suc j = ground (arith, h, e) in
        record {
          pre = x ∷ l.pre;
          last = l.last;
          post = l.post;
          split = ap (λ r. x ∷ r) l.split;
          place = omega (arith, l.place, next);
          fits = l.fits;
          none_later = l.none_later;
        }
  ]

last_index-lt :
    {A : Type 0} (p : A → Bool) (xs : List A) (i : ℕ) → last_index p xs ≡ some i → i < length xs
last_index-lt p xs i h =
    let l = last_index-Last p xs i h in
    let n : length xs ≡ length (l.pre ++ l.last ∷ l.post) = ap length l.split in
    omega (arith, n, l.place, length-append l.pre (l.last ∷ l.post))

insert_idx_fits :
    {A : Type 0} (p : A → Bool) (xs : List A) (i : ℕ) (mark : Option ℕ)
    → last_index p xs ≡ mark
    → i < length xs
    → insert_idx mark i ≤ length xs
insert_idx_fits p xs i none e h = omega (arith, h)
insert_idx_fits p xs i (some j) e h = omega (arith, last_index-lt p xs j e)

length-set_line : (i : ℕ) (f : Text → Text) (ls : List Text) → length (set_line i f ls) ≡ length ls
unfolding set_line
length-set_line i f [] = refl
length-set_line zero f (l ∷ ls) = refl
length-set_line (suc i) f (l ∷ ls) = omega (arith, length-set_line i f ls)

set_line_at :
    (f : Text → Text) (pre : List Text) (l : Text) (post : List Text)
    → set_line (length pre) f (pre ++ l ∷ post) ≡ pre ++ f l ∷ post
unfolding set_line
set_line_at f [] l post = refl
set_line_at f (x ∷ pre) l post = ap (λ r. x ∷ r) (set_line_at f pre l post)

-- the lines before and behind the inserted ones
insert_at-split :
    (i : ℕ) (new ls : List Text)
    → i ≤ length ls
    → (before : List Text) × (after : List Text) × (insert_at i new ls ≡ before ++ (new ++ after))
      × (before ++ after ≡ ls)
      × (length before ≡ i)
unfolding insert_at
insert_at-split zero new ls h = ([], ls, refl, refl, refl)
insert_at-split (suc i) new [] h = absurd (omega (arith, h))
insert_at-split (suc i) new (l ∷ ls) h =
    let (before, after, put, kept, place) = insert_at-split i new ls (omega (arith, h)) in
    (l ∷ before, after, ap (λ r. l ∷ r) put, ap (λ r. l ∷ r) kept, omega (arith, place))

-- A telephone event in a document: its two lines stand once among the lines that were there,
-- behind the last rtpmap line or else behind the last audio line, whose payload types it ends.
pub record Injected (sdp : Text) (info : TelephoneEventInfo) (out : Text) : Type 0 where
  pub before : List Text
  pub after : List Text
  pub pre : List Text
  pub mline : Text
  pub announced : Text
  pub post : List Text
  pub text :
      out
      ≡ join crlf
          (before ++ build_rtpmap_line info.pt info.clock_rate ∷ build_fmtp_line info.pt ∷ after)
        ++ crlf
  pub media : lines sdp ≡ pre ++ mline ∷ post
  pub is_media : is_media_line mline ≡ true
  pub last_media : All (λ l. is_media_line l ≡ false) post
  pub pt_added :
      (announced ≡ join (codes " ") (words mline ++ to_string info.pt ∷ []))
      ⊎ ((length (words mline) < 4) × (announced ≡ mline))
  pub kept : before ++ after ≡ pre ++ announced ∷ post
  pub place : length before ≡ suc (get_or (last_index is_rtpmap_line (lines sdp)) (length pre))

with_pt-cases :
    (pt_str mline : Text)
    → (with_pt pt_str mline ≡ join (codes " ") (words mline ++ pt_str ∷ []))
      ⊎ ((length (words mline) < 4) × (with_pt pt_str mline ≡ mline))
unfolding with_pt
with_pt-cases pt_str mline = elim (Bool-cases (leb 4 (length (words mline)))) [
  | inl e ↦ inl (rw (with_pt, e) refl)
  | inr e ↦ inr (ground arith, rw (with_pt, e) refl)
]

insert_idx_lem : (r : Option ℕ) (i : ℕ) → insert_idx r i ≡ suc (get_or r i)
insert_idx_lem none i = refl
insert_idx_lem (some j) i = refl

inject-Injected :
    (sdp : Text) (info : TelephoneEventInfo) (i : ℕ)
    → last_index is_media_line (lines sdp) ≡ some i
    → has_telephone_event sdp ≡ false
    → Injected sdp info (inject_telephone_event_sdp sdp info)
unfolding inject_telephone_event_sdp inject_lines
inject-Injected sdp info i found has =
    let m = last_index-Last is_media_line (lines sdp) i found in
    let announced = with_pt (to_string info.pt) m.last in
    let changed : set_line i (with_pt (to_string info.pt)) (lines sdp)
        ≡ m.pre ++ announced ∷ m.post =
      ap (λ n. set_line n (with_pt (to_string info.pt)) (lines sdp)) (sym m.place)
      ∙ ap (set_line (length m.pre) (with_pt (to_string info.pt))) m.split
      ∙ set_line_at (with_pt (to_string info.pt)) m.pre m.last m.post in
    let mark = last_index is_rtpmap_line (lines sdp) in
    let idx : ℕ = insert_idx mark i in
    let fits : idx ≤ length (set_line i (with_pt (to_string info.pt)) (lines sdp)) = omega (
      arith,
      length-set_line i (with_pt (to_string info.pt)) (lines sdp),
      insert_idx_fits is_rtpmap_line (lines sdp) i mark refl
          (last_index-lt is_media_line (lines sdp) i found),
    ) in
    let (before, after, put, kept, place) =
      insert_at-split idx (event_lines info) (set_line i (with_pt (to_string info.pt)) (lines sdp))
        fits in
    record {
      before = before;
      after = after;
      pre = m.pre;
      mline = m.last;
      announced = announced;
      post = m.post;
      text = rw (inject_telephone_event_sdp, has, found, put) refl;
      media = m.split;
      is_media = m.fits;
      last_media = m.none_later;
      pt_added = with_pt-cases (to_string info.pt) m.last;
      kept = kept ∙ changed;
      place = place ∙ insert_idx_lem mark i ∙ ap (λ n. suc (get_or mark n)) (sym m.place);
    }

-- A telephone event is put in once: a document with an audio line that has one is left as it is, and
-- any other gets the two lines of the event, once, behind the last rtpmap line or else behind the
-- audio line, which gets the payload type, with all other lines as they were. A document that was
-- given one is left as it is when another is to be put in.
pub inject_telephone_event_sdp_once :
    (sdp : Text) (info again : TelephoneEventInfo) (i : ℕ)
    → last_index is_media_line (lines sdp) ≡ some i
    → (((has_telephone_event sdp ≡ true) × (inject_telephone_event_sdp sdp info ≡ sdp))
        ⊎ ((has_telephone_event sdp ≡ false)
            × Injected sdp info (inject_telephone_event_sdp sdp info)))
      × (inject_telephone_event_sdp (inject_telephone_event_sdp sdp info) again
          ≡ inject_telephone_event_sdp sdp info)
inject_telephone_event_sdp_once sdp info again i media = (
  elim (Bool-cases (has_telephone_event sdp)) [
    | inl has ↦ inl (has, left_as_it_is sdp info has)
    | inr lacks ↦ inr (lacks, inject-Injected sdp info i media lacks)
  ],
  left_as_it_is _ again (injected_has sdp info i media),
)
