-- ===== src/Streams/Distinct.antt =====
-- streams.py: the tables of the subscribers, in which each stands once, and their sizes.
use hermes_stagewhisper_plug.Prelude.{
  ℕ, suc, ◌+◌, ◌<◌, ◌≡◌, refl, ◌∙◌, ap, sym, inl, inr, String, true, false, none, List, [], ◌∷◌,
  ◌++◌, ◌==◌, length, any, map, eqb_iff, eq_iff, Bool-cases, arith,
}
use hermes_stagewhisper_plug.Dict
use hermes_stagewhisper_plug.Dict.{Dict}
use hermes_stagewhisper_plug.Dict.Laws.{get-put, get-remove, remove_absent}
use hermes_stagewhisper_plug.Streams.{Subscriber, members_of}
use hermes_stagewhisper_plug.Streams.Operations.{has_ident, others, for_members}

-- The subscribers that are registered, of all sessions.
abbrev pub total : Dict (List Subscriber) → ℕ
total [] = 0
total ((k, subs) ∷ d) = length subs + total d

-- Subscribers that were made before the next one, no two with one identity.
abbrev pub Distinct : ℕ → List Subscriber → Type 0
Distinct next [] = Unit
Distinct next (s ∷ subs) =
    (s.ident < next) × (any (has_ident s.ident) subs ≡ false) × Distinct next subs

abbrev pub AllDistinct : ℕ → Dict (List Subscriber) → Type 0
AllDistinct next [] = Unit
AllDistinct next ((k, subs) ∷ d) = (Dict.get d k ≡ none) × Distinct next subs × AllDistinct next d

pub total-put :
    (d : Dict (List Subscriber)) (k : String) (subs : List Subscriber)
    → total (Dict.put d k subs) + length (members_of (Dict.get d k)) ≡ total d + length subs
unfolding Dict.put Dict.get
total-put [] k subs = omega arith
total-put ((j, xs) ∷ d) k subs = ground (arith, total-put d k subs)

pub total-remove :
    (next : ℕ) (d : Dict (List Subscriber)) (k : String)
    → AllDistinct next d
    → total (Dict.remove d k) + length (members_of (Dict.get d k)) ≡ total d
unfolding Dict.remove Dict.get
total-remove next [] k h = omega arith
total-remove next ((j, xs) ∷ d) k h = elim (Bool-cases (j == k)) [
  | inl e ↦
      (let gone = remove_absent d k (ap (Dict.get d) (sym ((eq_iff j k).0 e)) ∙ h.0) in
        rw (e, gone) (omega arith))
  | inr e ↦ rw e (omega (arith, total-remove next d k h.2))
]

length-map :
    (f : Subscriber → Subscriber) (subs : List Subscriber) → length (map f subs) ≡ length subs
length-map f [] = refl
length-map f (s ∷ subs) = ap (λ n. suc n) (length-map f subs)

pub total-for_members :
    (f : Subscriber → Subscriber) (k : String) (d : Dict (List Subscriber))
    → total (for_members f k d) ≡ total d
unfolding for_members
total-for_members f k [] = refl
total-for_members f k ((j, subs) ∷ d) = ground (arith, length-map f subs, total-for_members f k d)

get-for_members-none :
    (f : Subscriber → Subscriber) (k j : String) (d : Dict (List Subscriber))
    → Dict.get d j ≡ none
    → Dict.get (for_members f k d) j ≡ none
unfolding for_members Dict.get
get-for_members-none f k j [] h = refl
get-for_members-none f k j ((i, subs) ∷ d) h = ground (arith, h, get-for_members-none f k j d)

any-map :
    (f : Subscriber → Subscriber) (ident : ℕ) (subs : List Subscriber)
    → ((s : Subscriber) → (f s).ident ≡ s.ident)
    → any (has_ident ident) (map f subs) ≡ any (has_ident ident) subs
any-map f ident [] same = refl
any-map f ident (s ∷ subs) same = ground (arith, same s, any-map f ident subs same)

map-Distinct :
    (f : Subscriber → Subscriber) (next : ℕ) (subs : List Subscriber)
    → ((s : Subscriber) → (f s).ident ≡ s.ident)
    → Distinct next subs
    → Distinct next (map f subs)
map-Distinct f next [] same h = tt
map-Distinct f next (s ∷ subs) same h = (
  rw (same s) h.0,
  ap (λ i. any (has_ident i) (map f subs)) (same s) ∙ any-map f s.ident subs same ∙ h.1,
  map-Distinct f next subs same h.2,
)

pub for_members-AllDistinct :
    (f : Subscriber → Subscriber) (next : ℕ) (k : String) (d : Dict (List Subscriber))
    → ((s : Subscriber) → (f s).ident ≡ s.ident)
    → AllDistinct next d
    → AllDistinct next (for_members f k d)
unfolding for_members
for_members-AllDistinct f next k [] same h = tt
for_members-AllDistinct f next k ((j, subs) ∷ d) same h = elim (Bool-cases (j == k)) [
  | inl e ↦ rw e (h.0, map-Distinct f next subs same h.1, h.2)
  | inr e ↦
      rw (for_members, e)
        (get-for_members-none f k j d h.0, h.1, for_members-AllDistinct f next k d same h.2)
]

pub put-AllDistinct :
    (next : ℕ) (d : Dict (List Subscriber)) (k : String) (subs : List Subscriber)
    → AllDistinct next d
    → Distinct next subs
    → AllDistinct next (Dict.put d k subs)
unfolding Dict.put Dict.get
put-AllDistinct next [] k subs h new = (refl, new, tt)
put-AllDistinct next ((j, xs) ∷ d) k subs h new = elim (Bool-cases (j == k)) [
  | inl e ↦ rw e (h.0, new, h.2)
  | inr e ↦
      rw (Dict.put, e)
        (
          get-put d k j subs ∙ ground (arith, e, h.0, eq_iff j k, eq_iff k j),
          h.1,
          put-AllDistinct next d k subs h.2 new,
        )
]

pub remove-AllDistinct :
    (next : ℕ) (d : Dict (List Subscriber)) (k : String)
    → AllDistinct next d
    → AllDistinct next (Dict.remove d k)
unfolding Dict.remove
remove-AllDistinct next [] k h = tt
remove-AllDistinct next ((j, xs) ∷ d) k h = elim (Bool-cases (j == k)) [
  | inl e ↦ rw (Dict.remove, e) (remove-AllDistinct next d k h.2)
  | inr e ↦
      rw (Dict.remove, e)
        (get-remove d k j ∙ ground (arith, h.0), h.1, remove-AllDistinct next d k h.2)
]

pub members-Distinct :
    (next : ℕ) (d : Dict (List Subscriber)) (k : String)
    → AllDistinct next d
    → Distinct next (members_of (Dict.get d k))
unfolding Dict.get
members-Distinct next [] k h = tt
members-Distinct next ((j, xs) ∷ d) k h = elim (Bool-cases (j == k)) [
  | inl e ↦ rw (Dict.get, e) h.1
  | inr e ↦ rw (Dict.get, e) (members-Distinct next d k h.2)
]

next-Distinct : (next : ℕ) (subs : List Subscriber) → Distinct next subs → Distinct (next + 1) subs
next-Distinct next [] h = tt
next-Distinct next (s ∷ subs) h = (omega (arith, h.0), h.1, next-Distinct next subs h.2)

pub next-AllDistinct :
    (next : ℕ) (d : Dict (List Subscriber)) → AllDistinct next d → AllDistinct (next + 1) d
next-AllDistinct next [] h = tt
next-AllDistinct next ((k, subs) ∷ d) h =
    (h.0, next-Distinct next subs h.1, next-AllDistinct next d h.2)

any-append-new :
    (i : ℕ) (s : Subscriber) (subs : List Subscriber)
    → i < s.ident
    → any (has_ident i) subs ≡ false
    → any (has_ident i) (subs ++ s ∷ []) ≡ false
any-append-new i s [] old h = ground (arith, old)
any-append-new i s (x ∷ subs) old h = ground (arith, old, h, any-append-new i s subs old)

pub append-Distinct :
    (s : Subscriber) (subs : List Subscriber)
    → Distinct s.ident subs
    → Distinct (s.ident + 1) (subs ++ s ∷ [])
append-Distinct s [] h = (omega arith, refl, tt)
append-Distinct s (x ∷ subs) h =
    (omega (arith, h.0), any-append-new x.ident s subs h.0 h.1, append-Distinct s subs h.2)

others_absent :
    (ident : ℕ) (subs : List Subscriber)
    → any (has_ident ident) subs ≡ false
    → others ident subs ≡ subs
others_absent ident [] h = refl
others_absent ident (x ∷ subs) h = ground (arith, h, others_absent ident subs)

any-others :
    (i ident : ℕ) (subs : List Subscriber)
    → any (has_ident i) subs ≡ false
    → any (has_ident i) (others ident subs) ≡ false
any-others i ident [] h = refl
any-others i ident (x ∷ subs) h = ground (arith, h, any-others i ident subs)

pub others-Distinct :
    (next ident : ℕ) (subs : List Subscriber)
    → Distinct next subs
    → Distinct next (others ident subs)
others-Distinct next ident [] h = tt
others-Distinct next ident (x ∷ subs) h = elim (Bool-cases (has_ident ident x)) [
  | inl e ↦ rw (others, e) (others-Distinct next ident subs h.2)
  | inr e ↦
      rw (others, e) (h.0, any-others x.ident ident subs h.1, others-Distinct next ident subs h.2)
]

-- One subscriber leaves.
pub length-others :
    (next ident : ℕ) (subs : List Subscriber)
    → Distinct next subs
    → any (has_ident ident) subs ≡ true
    → length (others ident subs) + 1 ≡ length subs
length-others next ident [] h found = cc
length-others next ident (x ∷ subs) h found = elim (Bool-cases (has_ident ident x)) [
  | inl e ↦
      (let same : x.ident ≡ ident = (eqb_iff x.ident ident).0 e in
        let gone = others_absent ident subs (ap (λ i. any (has_ident i) subs) (sym same) ∙ h.1) in
        rw (others, e, gone) (omega arith))
  | inr e ↦
      rw (others, e) (omega (arith, length-others next ident subs h.2 (ground (arith, e, found))))
]
