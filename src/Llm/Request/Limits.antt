-- ===== src/Llm/Request/Limits.antt =====
-- llm_request.py: which requests pass.
use hermes_stagewhisper_plug.Prelude.{
  ℕ, suc, ◌≤◌, ◌<◌, ◌≡◌, refl, ◌↔◌, true, some, List, [], ◌∷◌, length, All, ltb, if◌then◌else◌,
  arith,
}
use hermes_stagewhisper_plug.Json
use hermes_stagewhisper_plug.Json.{
  Json, Items, Members, null, boolean, int, negative, float, string, array, object, nil, cons,
  as_object, InSet, found, missing, type_error, in_set,
}
use hermes_stagewhisper_plug.Llm.Request.{
  llm_max_messages, llm_max_tools, llm_max_tool_bytes, llm_max_tools_total_bytes, message_roles,
  LlmRejection,
}
use hermes_stagewhisper_plug.Llm.Request.Checks.{
  Outcome, passes, refused, raises, then_check, check_each, encoded_size, has_type, is_text_only,
  as_array, items_of, check_message, check_messages, check_tool, check_tools,
}

-- A message in an accepted form, and a tool.
abbrev pub IsMessage : Json → Type 0
IsMessage m =
    (ms : Members) × (m ≡ object ms)
    × (in_set message_roles (Json.get ms "role") ≡ found)
    × (is_text_only (Json.get ms "content") ≡ true)

abbrev pub IsTool : Json → Type 0
IsTool t = (has_type "function" t ≡ true) × (encoded_size t ≤ llm_max_tool_bytes)

-- Messages within the limits, and tools.
pub record IsWithin (messages tools : Items) : Type 0 where
  pub some_message : 0 < length (items_of messages)
  pub few_messages : length (items_of messages) ≤ llm_max_messages
  pub each_message : All IsMessage (items_of messages)
  pub few_tools : length (items_of tools) ≤ llm_max_tools
  pub each_tool : All IsTool (items_of tools)
  pub small_tools : encoded_size (array tools) ≤ llm_max_tools_total_bytes

pub as_object-inv : (j : Json) (ms : Members) → as_object j ≡ some ms → j ≡ object ms
as_object-inv (object ns) ms h = cc
as_object-inv null ms h = cc
as_object-inv (boolean b) ms h = cc
as_object-inv (int n) ms h = cc
as_object-inv (negative n) ms h = cc
as_object-inv (float s) ms h = cc
as_object-inv (string s) ms h = cc
as_object-inv (array xs) ms h = cc

pub as_array-inv : (j : Json) (xs : Items) → as_array j ≡ some xs → j ≡ array xs
as_array-inv (array ys) xs h = cc
as_array-inv null xs h = cc
as_array-inv (boolean b) xs h = cc
as_array-inv (int n) xs h = cc
as_array-inv (negative n) xs h = cc
as_array-inv (float s) xs h = cc
as_array-inv (string s) xs h = cc
as_array-inv (object ms) xs h = cc

-- A check passes exactly where a condition holds.
abbrev pub Decides : Outcome → Type 0 → Type 0
Decides outcome P = (outcome ≡ passes) ↔ P

pub then_check-passes : (a b : Outcome) → Decides (then_check a b) ((a ≡ passes) × (b ≡ passes))
unfolding then_check
then_check-passes passes b = (λ h. (refl, h), λ h. h.1)
then_check-passes (refused r) b = (λ h. cc, λ h. cc)
then_check-passes raises b = (λ h. cc, λ h. cc)

-- `P` on every element, where each check decides `P`.
pub check_each-passes :
    (check : ℕ → Json → Outcome) (P : Json → Type 0)
    → ((index : ℕ) (x : Json) → Decides (check index x) (P x))
    → (index : ℕ) (xs : List Json) → Decides (check_each check index xs) (All P xs)
unfolding check_each
check_each-passes check P decides index [] = (λ _. tt, λ _. refl)
check_each-passes check P decides index (x ∷ xs) =
    let both = then_check-passes (check index x) (check_each check (suc index) xs) in
    let rest = check_each-passes check P decides (suc index) xs in
    (
      λ h. ((decides index x).0 (both.0 h).0, rest.0 (both.0 h).1),
      λ h. both.1 ((decides index x).1 h.0, rest.1 h.1),
    )

pub check_message-passes : (index : ℕ) (m : Json) → Decides (check_message index m) (IsMessage m)
unfolding check_message
check_message-passes index (object ms) = (
  λ h. (ms, refl, ground (arith, h), ground (arith, h)),
  λ (ns, e, role, text). ground (arith, e, role, text),
)
check_message-passes index null = (λ h. cc, λ (ms, e, _, _). cc)
check_message-passes index (boolean b) = (λ h. cc, λ (ms, e, _, _). cc)
check_message-passes index (int n) = (λ h. cc, λ (ms, e, _, _). cc)
check_message-passes index (negative n) = (λ h. cc, λ (ms, e, _, _). cc)
check_message-passes index (float s) = (λ h. cc, λ (ms, e, _, _). cc)
check_message-passes index (string s) = (λ h. cc, λ (ms, e, _, _). cc)
check_message-passes index (array xs) = (λ h. cc, λ (ms, e, _, _). cc)

check_tool-passes : (index : ℕ) (t : Json) → Decides (check_tool index t) (IsTool t)
unfolding check_tool
check_tool-passes index t =
    (λ h. (ground (arith, h), ground (arith, h)), λ (f, small). ground (arith, f, small))

-- A list that is refused where it is longer than a limit.
pub limit-passes :
    (limit n : ℕ) (r : LlmRejection) (o : Outcome)
    → Decides (if ltb limit n then refused r else o) ((n ≤ limit) × (o ≡ passes))
limit-passes limit n r o =
    (λ h. (ground (arith, h), ground (arith, h)), λ (small, ok). ground (arith, small, ok))

abbrev AreTools : Items → Type 0
AreTools tools =
    (length (items_of tools) ≤ llm_max_tools)
    × All IsTool (items_of tools)
    × (encoded_size (array tools) ≤ llm_max_tools_total_bytes)

abbrev AreMessages : List Json → Type 0
AreMessages ms = (0 < length ms) × (length ms ≤ llm_max_messages) × All IsMessage ms

check_tools-passes : (tools : Items) → Decides (check_tools tools) (AreTools tools)
unfolding check_tools
check_tools-passes tools =
    let few = limit-passes llm_max_tools (length (items_of tools)) _ _ in
    let both = then_check-passes (check_each check_tool 0 (items_of tools)) _ in
    let each = check_each-passes check_tool IsTool check_tool-passes 0 (items_of tools) in
    let total = limit-passes llm_max_tools_total_bytes (encoded_size (array tools)) _ passes in
    (
      λ h.
          (let (short, rest) = few.0 h in
            let (tools_ok, total_ok) = both.0 rest in
            (short, each.0 tools_ok, (total.0 total_ok).0)),
      λ (short, tools_ok, small). few.1 (short, both.1 (each.1 tools_ok, total.1 (small, refl))),
    )

check_messages-passes : (ms : List Json) → Decides (check_messages ms) (AreMessages ms)
unfolding check_messages
check_messages-passes [] = (λ h. cc, λ (some_message, _, _). ground (arith, some_message))
check_messages-passes (m ∷ ms) =
    let few = limit-passes llm_max_messages (length (m ∷ ms)) _ _ in
    let each = check_each-passes check_message IsMessage check_message-passes 0 (m ∷ ms) in
    (
      λ h. (let (short, rest) = few.0 h in (omega arith, short, each.0 rest)),
      λ (_, short, ok). few.1 (short, each.1 ok),
    )

-- All the checks pass exactly within the limits.
pub checks-IsWithin :
    (messages tools : Items)
    → Decides
        (then_check (check_messages (items_of messages)) (check_tools tools))
        (IsWithin messages tools)
checks-IsWithin messages tools =
    let both = then_check-passes (check_messages (items_of messages)) (check_tools tools) in
    let ms = check_messages-passes (items_of messages) in
    let ts = check_tools-passes tools in
    (
      λ h.
          (let (h₁, h₂) = both.0 h in
            let (some_message, few_messages, each_message) = ms.0 h₁ in
            let (few_tools, each_tool, small_tools) = ts.0 h₂ in
            record {
              some_message = some_message;
              few_messages = few_messages;
              each_message = each_message;
              few_tools = few_tools;
              each_tool = each_tool;
              small_tools = small_tools;
            }),
      λ w. both.1 (
        ms.1 (w.some_message, w.few_messages, w.each_message),
        ts.1 (w.few_tools, w.each_tool, w.small_tools),
      ),
    )
