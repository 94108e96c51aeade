-- ===== src/Llm/Request/Errors.antt =====
-- llm_request.py: which message a rejection names.
use hermes_stagewhisper_plug.Prelude.{
  ℕ, suc, ◌+◌, ◌≤◌, ◌<◌, ◌≡◌, ◌≢◌, refl, ◌∙◌, sym, ap, ◌⊎◌, inl, inr, some, List, [], ◌∷◌, ◌++◌,
  length, All, Bool-cases, arith, le→ltb,
}
use mathlib.Core.Path.{subst}
use hermes_stagewhisper_plug.Text.{◌<>◌}
use hermes_stagewhisper_plug.Json
use hermes_stagewhisper_plug.Json.{
  Json, Items, Members, null, boolean, int, negative, float, string, array, object, in_set, InSet,
  found, missing, type_error, show_nat,
}
use hermes_stagewhisper_plug.Llm.Request.{llm_max_messages, message_roles, LlmRejection}
use hermes_stagewhisper_plug.Llm.Request.Checks.{
  Outcome, passes, refused, raises, then_check, check_each, check_message, check_messages,
  is_text_only,
}
use hermes_stagewhisper_plug.Llm.Request.Limits.{IsMessage, Decides, check_message-passes}

-- How a message fails: with a rejection of status 400 that names it or its content, or, where its
-- role cannot be hashed, with a `TypeError`.
pub data Fails (index : ℕ) (m : Json) : Outcome → Type 0 where
  bad_role :
      (r : LlmRejection)
      → r.status ≡ 400
      → r.param ≡ some ("messages." <> show_nat index)
      → Fails index m (refused r)
  bad_content :
      (r : LlmRejection)
      → r.status ≡ 400
      → r.param ≡ some ("messages." <> show_nat index <> ".content")
      → Fails index m (refused r)
  bad_hash :
      (ms : Members)
      → m ≡ object ms
      → in_set message_roles (Json.get ms "role") ≡ type_error
      → Fails index m raises

-- The first element that a check lets not pass, and what comes of it.
pub record First (check : ℕ → Json → Outcome) (P : Json → Type 0) (index : ℕ) (xs : List Json)
    (o : Outcome) : Type 0 where
  pub front : List Json
  pub x : Json
  pub back : List Json
  pub splits : xs ≡ front ++ x ∷ back
  pub before : All P front
  pub at : check (index + length front) x ≡ o

pub Outcome-cases : (o : Outcome) → (o ≡ passes) ⊎ (o ≢ passes)
Outcome-cases passes = inl refl
Outcome-cases (refused r) = inr (λ e. cc)
Outcome-cases raises = inr (λ e. cc)

then_check-stops : (a b : Outcome) → a ≢ passes → then_check a b ≡ a
unfolding then_check
then_check-stops passes b h = absurd (h refl)
then_check-stops (refused r) b h = refl
then_check-stops raises b h = refl

module _ (check : ℕ → Json → Outcome) (P : Json → Type 0)
    (decides : (index : ℕ) (x : Json) → Decides (check index x) (P x)) where
  pub check_each-First :
      (index : ℕ) (xs : List Json)
      → check_each check index xs ≢ passes
      → First check P index xs (check_each check index xs)
  unfolding check_each then_check
  check_each-First index [] h = absurd (h refl)
  check_each-First index (x ∷ xs) h = elim (Outcome-cases (check index x)) [
    | inl ok ↦
        (let rest = check_each-First (suc index) xs (λ e. h (rw (ok, then_check) e)) in
          record {
            front = x ∷ rest.front;
            x = rest.x;
            back = rest.back;
            splits = ap (λ ys. x ∷ ys) rest.splits;
            before = ((decides index x).0 ok, rest.before);
            at = ap (λ k. check k rest.x) (omega arith) ∙ rest.at ∙ sym (rw (ok, then_check) refl);
          })
    | inr bad ↦ record {
      front = [];
      x = x;
      back = xs;
      splits = refl;
      before = tt;
      at = ap (λ k. check k x) (omega arith) ∙ sym (then_check-stops (check index x) _ bad);
    }
  ]

InSet-cases : (i : InSet) → (i ≡ found) ⊎ (i ≡ missing) ⊎ (i ≡ type_error)
InSet-cases found = inl refl
InSet-cases missing = inr (inl refl)
InSet-cases type_error = inr (inr refl)

message_fails :
    (index : ℕ) (m : Json) → check_message index m ≢ passes → Fails index m (check_message index m)
unfolding check_message
message_fails index (object ms) h = elim (InSet-cases (in_set message_roles (Json.get ms "role"))) [
  | inl f ↦ elim (Bool-cases (is_text_only (Json.get ms "content"))) [
    | inl t ↦ absurd (h (rw (f, t, check_message) refl))
    | inr t ↦ rw (f, t, check_message) (bad_content _ refl refl)
  ]
  | inr (inl e) ↦ rw (e, check_message) (bad_role _ refl refl)
  | inr (inr e) ↦ rw (e, check_message) (bad_hash ms refl e)
]
message_fails index null h = bad_role _ refl refl
message_fails index (boolean b) h = bad_role _ refl refl
message_fails index (int n) h = bad_role _ refl refl
message_fails index (negative n) h = bad_role _ refl refl
message_fails index (float s) h = bad_role _ refl refl
message_fails index (string s) h = bad_role _ refl refl
message_fails index (array xs) h = bad_role _ refl refl

First-fails :
    (ms : List Json)
    → check_each check_message 0 ms ≢ passes
    → (first : First check_message IsMessage 0 ms (check_each check_message 0 ms)) × Fails
        (length first.front)
        first.x
        (check_each check_message 0 ms)
First-fails ms bad =
    let first = check_each-First check_message IsMessage check_message-passes 0 ms bad in
    let at : check_message (length first.front) first.x ≡ check_each check_message 0 ms =
      ap (λ k. check_message k first.x) (omega arith) ∙ first.at in
    (
      first,
      subst (Fails (length first.front) first.x) at
          (message_fails (length first.front) first.x (λ e. bad (sym at ∙ e))),
    )

-- Where `_messages_rejection` refuses 1 to 200 messages, a first message is not in an accepted form,
-- and the outcome is that message's: a rejection of status 400 that names its index, or the
-- `TypeError` of a role that cannot be hashed. The messages before it are in an accepted form.
pub check_messages-First :
    (ms : List Json)
    → 0 < length ms
    → length ms ≤ llm_max_messages
    → check_messages ms ≢ passes
    → (first : First check_message IsMessage 0 ms (check_messages ms)) × Fails
        (length first.front)
        first.x
        (check_messages ms)
unfolding check_messages
check_messages-First [] pos few h = ground (arith, pos)
check_messages-First (m ∷ ms) pos few h =
    let short : check_messages (m ∷ ms) ≡ check_each check_message 0 (m ∷ ms) =
      rw (le→ltb llm_max_messages (length (m ∷ ms)) few, check_messages) refl in
    let loops : check_each check_message 0 (m ∷ ms) ≢ passes = λ e. h (short ∙ e) in
    rw short (First-fails (m ∷ ms) loops)
