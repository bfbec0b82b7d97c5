-- ===== src/Dto/BestSize.antt =====
-- Which size of a photo a client gets.
use telegram_rest_gateway.Prelude.{
  ◌≡◌, refl, ap, ◌⊎◌, inl, inr, Bool, true, false, not, Option, none, some, List, [], ◌∷◌, ◌++◌,
  arith, Bool-cases, nat_eq, bytes_eq, all,
}
use telegram_rest_gateway.Prelude.Int.{ℤ, pos, negsuc, int_ltb}
use telegram_rest_gateway.Dto.Objects.{FormattedText, PhotoSize, Content}
use telegram_rest_gateway.Dto.Content.{best_size, put_size, put_photo, put_content, content_to_json}

-- The size is null, or less wide, or not wider than the one given.
abbrev pub is_null : Option PhotoSize → Bool
is_null none = true
is_null (some s) = false

abbrev pub is_narrower : PhotoSize → Option PhotoSize → Bool
is_narrower b none = true
is_narrower b (some s) = int_ltb s.width b.width

abbrev pub is_no_wider : PhotoSize → Option PhotoSize → Bool
is_no_wider b none = true
is_no_wider b (some s) = not (int_ltb b.width s.width)

-- `best` is the first of the widest.
pub record IsFirstWidest (best : PhotoSize) (sizes : List (Option PhotoSize)) : Type 0 where
  pub before : List (Option PhotoSize)
  pub after : List (Option PhotoSize)
  pub split : sizes ≡ before ++ some best ∷ after
  pub narrower : all (is_narrower best) before ≡ true
  pub no_wider : all (is_no_wider best) after ≡ true

int_ltb_trans : (a b c : ℤ) → int_ltb a b ≡ true → int_ltb b c ≡ true → int_ltb a c ≡ true
int_ltb_trans (pos a) (pos b) (pos c) h k = ground arith
int_ltb_trans (pos a) (pos b) (negsuc c) h k = ground arith
int_ltb_trans (pos a) (negsuc b) c h k = ground arith
int_ltb_trans (negsuc a) (pos b) (pos c) h k = refl
int_ltb_trans (negsuc a) (pos b) (negsuc c) h k = ground arith
int_ltb_trans (negsuc a) (negsuc b) (pos c) h k = refl
int_ltb_trans (negsuc a) (negsuc b) (negsuc c) h k = ground arith

int_ltb_trans_no : (a b c : ℤ) → int_ltb b a ≡ false → int_ltb b c ≡ true → int_ltb a c ≡ true
int_ltb_trans_no (pos a) (pos b) (pos c) h k = ground arith
int_ltb_trans_no (pos a) (pos b) (negsuc c) h k = ground arith
int_ltb_trans_no (pos a) (negsuc b) c h k = ground arith
int_ltb_trans_no (negsuc a) b (pos c) h k = refl
int_ltb_trans_no (negsuc a) (pos b) (negsuc c) h k = ground arith
int_ltb_trans_no (negsuc a) (negsuc b) (negsuc c) h k = ground arith

later :
    (o : Option PhotoSize) (x : PhotoSize) (sizes : List (Option PhotoSize))
    → is_narrower x o ≡ true
    → IsFirstWidest x sizes
    → IsFirstWidest x (o ∷ sizes)
later o x sizes h w = record {
  before = o ∷ w.before;
  after = w.after;
  split = ap (λ l. o ∷ l) w.split;
  narrower = ground (arith, h, w.narrower);
  no_wider = w.no_wider;
}

at_once :
    (s : PhotoSize) (sizes : List (Option PhotoSize))
    → all (is_no_wider s) sizes ≡ true
    → IsFirstWidest s (some s ∷ sizes)
at_once s sizes h = record {
  before = [];
  after = sizes;
  split = refl;
  narrower = refl;
  no_wider = h;
}

-- With a candidate, the candidate stays or a wider one takes its place.
widest_after :
    (b : PhotoSize) (sizes : List (Option PhotoSize))
    → ((best_size (some b) sizes ≡ some b) × (all (is_no_wider b) sizes ≡ true))
      ⊎ ((x : PhotoSize) × (best_size (some b) sizes ≡ some x)
          × (int_ltb b.width x.width ≡ true)
          × IsFirstWidest x sizes)
unfolding best_size
widest_after b [] = inl (refl, refl)
widest_after b (none ∷ sizes) = elim (widest_after b sizes) [
  | inl (e, none_wider) ↦ inl (e, none_wider)
  | inr (x, e, lt, w) ↦ inr (x, e, lt, later none x sizes refl w)
]
widest_after b (some s ∷ sizes) = elim (Bool-cases (int_ltb b.width s.width)) [
  | inl lt ↦ rw lt (elim (widest_after s sizes) [
    | inl (e, none_wider) ↦ inr (s, e, lt, at_once s sizes none_wider)
    | inr (x, e, lt', w) ↦
        inr (x, e, int_ltb_trans b.width s.width x.width lt lt', later (some s) x sizes lt' w)
  ])
  | inr ge ↦ rw ge (elim (widest_after b sizes) [
    | inl (e, none_wider) ↦ inl (e, none_wider)
    | inr (x, e, lt, w) ↦
        inr (x, e, lt, later (some s) x sizes (int_ltb_trans_no s.width b.width x.width ge lt) w)
  ])
]

widest :
    (sizes : List (Option PhotoSize))
    → ((best_size none sizes ≡ none) × (all is_null sizes ≡ true))
      ⊎ ((x : PhotoSize) × (best_size none sizes ≡ some x) × IsFirstWidest x sizes)
unfolding best_size
widest [] = inl (refl, refl)
widest (none ∷ sizes) = elim (widest sizes) [
  | inl (e, nulls) ↦ inl (e, nulls)
  | inr (x, e, w) ↦ inr (x, e, later none x sizes refl w)
]
widest (some s ∷ sizes) = elim (widest_after s sizes) [
  | inl (e, none_wider) ↦ inr (s, e, at_once s sizes none_wider)
  | inr (x, e, lt, w) ↦ inr (x, e, later (some s) x sizes lt w)
]

-- Of a photo with sizes a client gets the width, the height and the file of the first of the widest, or
-- none of these where every size is null.
pub photo-widest :
    (caption : Option FormattedText) (sizes : List (Option PhotoSize))
    → let bare = content_to_json (Content.photo caption none) in
      let json = content_to_json (Content.photo caption (some sizes)) in
      ((all is_null sizes ≡ true) × (json ≡ bare))
      ⊎ ((best : PhotoSize) × IsFirstWidest best sizes × (json ≡ put_size (some best) bare))
unfolding content_to_json put_content put_photo put_size
photo-widest caption sizes = elim (widest sizes) [
  | inl (e, nulls) ↦ inl (nulls, rw e)
  | inr (x, e, w) ↦ inr (x, w, rw e)
]
