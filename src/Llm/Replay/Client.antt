-- ===== src/Llm/Replay/Client.antt =====
-- llm_replay.py: a client reads the same answer from both forms.
use hermes_stagewhisper_plug.Prelude.{
  ℕ, zero, suc, ◌≡◌, refl, ◌∙◌, ap, sym, String, Option, none, some, List, [], ◌∷◌, ◌++◌, map,
  length,
}
use hermes_stagewhisper_plug.Json
use hermes_stagewhisper_plug.Json.{
  Json, Items, Members, null, boolean, int, negative, float, string, array, object, nil, cons, end,
  member, as_string, as_object,
}
use text.Mathlib.TextLemmas.{append-nil as append_empty, nil-append as empty_append}
use hermes_stagewhisper_plug.Text.{◌<>◌}
use hermes_stagewhisper_plug.Llm.Replay.{
  ToolCall, Completion, call_json, items, chunk, call_chunks, chunk_payloads, chat_completion_json,
}

-- What a client has read of an answer: its text, its tool calls, and why it ended, if it did.
pub record Answer : Type 0 where
  pub content : String
  pub tool_calls : List ToolCall
  pub finish_reason : Option String

-- A text, "" where there is none, and a member of an object, null where there is none.
abbrev text_in : Json → String
text_in json = elim (as_string json) [ none ↦ "" | some s ↦ s ]

abbrev member_of : Json → String → Json
member_of json key = elim (as_object json) [ none ↦ null | some ms ↦ Json.get ms key ]

abbrev elements : Json → Items
elements (array xs) = xs
elements null = nil
elements (boolean b) = nil
elements (int n) = nil
elements (negative n) = nil
elements (float s) = nil
elements (string s) = nil
elements (object ms) = nil

abbrev first_of : Json → Json
first_of json = elim (elements json) [ nil ↦ null | cons x xs ↦ x ]

abbrev read_call : Json → ToolCall
read_call json =
    let function = member_of json "function" in
    record {
      id = text_in (member_of json "id");
      name = text_in (member_of function "name");
      arguments = text_in (member_of function "arguments");
    }

unfoldable pub read_calls : Items → List ToolCall
unfolding Json.get
read_calls nil = []
read_calls (cons x xs) = read_call x ∷ read_calls xs

-- A plain answer: the message of its first choice.
unfoldable pub read_json : Members → Answer
unfolding Json.get read_calls
read_json body =
    let choice = first_of (Json.get body "choices") in
    let message = member_of choice "message" in
    record {
      content = text_in (member_of message "content");
      tool_calls = read_calls (elements (member_of message "tool_calls"));
      finish_reason = as_string (member_of choice "finish_reason");
    }

-- A call of a delta goes where its index says: on to the call that stands there, whose arguments it
-- continues, or to the end, if it is the next one; one that is further off, or has no index, is lost.
abbrev continued : ToolCall → ToolCall → ToolCall
continued call more = record call { arguments = call.arguments <> more.arguments }

unfoldable pub put_call : ℕ → ToolCall → List ToolCall → List ToolCall
put_call zero call [] = call ∷ []
put_call zero call (x ∷ xs) = continued x call ∷ xs
put_call (suc n) call [] = []
put_call (suc n) call (x ∷ xs) = x ∷ put_call n call xs

abbrev put_indexed : Json → ToolCall → List ToolCall → List ToolCall
put_indexed (int n) call calls = put_call n call calls
put_indexed null call calls = calls
put_indexed (boolean b) call calls = calls
put_indexed (negative n) call calls = calls
put_indexed (float s) call calls = calls
put_indexed (string s) call calls = calls
put_indexed (array xs) call calls = calls
put_indexed (object ms) call calls = calls

unfoldable pub put_calls : List ToolCall → Items → List ToolCall
unfolding Json.get put_call
put_calls calls nil = calls
put_calls calls (cons x xs) = put_calls (put_indexed (member_of x "index") (read_call x) calls) xs

-- A streamed answer: each chunk adds the text of its delta, and puts the delta's tool calls where
-- their indices say; the last reason to finish stands.
abbrev later : Option String → Option String → Option String
later earlier none = earlier
later earlier (some s) = some s

unfoldable pub read_chunk : Answer → Members → Answer
unfolding Json.get put_calls
read_chunk answer body =
    let choice = first_of (Json.get body "choices") in
    let delta = member_of choice "delta" in
    record {
      content = answer.content <> text_in (member_of delta "content");
      tool_calls = put_calls answer.tool_calls (elements (member_of delta "tool_calls"));
      finish_reason = later answer.finish_reason (as_string (member_of choice "finish_reason"));
    }

unfoldable pub read_chunks : Answer → List Members → Answer
unfolding read_chunk
read_chunks answer [] = answer
read_chunks answer (body ∷ bodies) = read_chunks (read_chunk answer body) bodies

abbrev pub nothing_read : Answer
nothing_read = record { content = ""; tool_calls = []; finish_reason = none }

pub answer_of : Completion → Answer
answer_of c = record {
  content = c.content;
  tool_calls = c.tool_calls;
  finish_reason = some c.finish_reason;
}

read_calls-items : (calls : List ToolCall) → read_calls (items (map call_json calls)) ≡ calls
unfolding read_calls Json.get
read_calls-items [] = refl
read_calls-items (call ∷ calls) = ap (λ rest. call ∷ rest) (read_calls-items calls)

module _ (id model : String) (created : ℕ) (finish : String) where
  made : String → List ToolCall → Completion
  made content calls = record {
    id = id;
    model = model;
    created = created;
    content = content;
    tool_calls = calls;
    finish_reason = finish;
  }

  with_content : String → List ToolCall → Answer
  with_content content calls = record {
    content = content;
    tool_calls = calls;
    finish_reason = some finish;
  }

  read_made :
      (content : String) (calls : List ToolCall)
      → read_json (chat_completion_json (made content calls)) ≡ with_content content calls
  unfolding read_json chat_completion_json Json.get made with_content read_calls
  read_made String.[] [] = refl
  read_made (String.◌∷◌ ch s) [] = refl
  read_made String.[] (call ∷ calls) =
      ap (λ rest. with_content String.[] (call ∷ rest)) (read_calls-items calls)
  read_made (String.◌∷◌ ch s) (call ∷ calls) =
      ap (λ rest. with_content (String.◌∷◌ ch s) (call ∷ rest)) (read_calls-items calls)

read_json-completion : (c : Completion) → read_json (chat_completion_json c) ≡ answer_of c
unfolding answer_of made with_content
read_json-completion c = read_made c.id c.model c.created c.finish_reason c.content c.tool_calls

append_assoc : (xs ys zs : List ToolCall) → (xs ++ ys) ++ zs ≡ xs ++ (ys ++ zs)
append_assoc [] ys zs = refl
append_assoc (x ∷ xs) ys zs = ap (λ r. x ∷ r) (append_assoc xs ys zs)

append-nil : (xs : List ToolCall) → xs ++ [] ≡ xs
append-nil [] = refl
append-nil (x ∷ xs) = ap (λ r. x ∷ r) (append-nil xs)

-- What is read before the last chunk.
reading : String → List ToolCall → Answer
reading content calls = record { content = content; tool_calls = calls; finish_reason = none }

-- The next call goes to the end.
put_call-next :
    (call : ToolCall) (before : List ToolCall)
    → put_call (length before) call before ≡ before ++ call ∷ []
unfolding put_call
put_call-next call [] = refl
put_call-next call (x ∷ before) = ap (λ r. x ∷ r) (put_call-next call before)

length-next :
    (call : ToolCall) (before : List ToolCall) → suc (length before) ≡ length (before ++ call ∷ [])
length-next call [] = refl
length-next call (x ∷ before) = ap (λ n. suc n) (length-next call before)

-- The chunks of the tool calls, read one after another, where the first has the next index.
read_chunks-calls :
    (c : Completion) (index : ℕ) (calls : List ToolCall) (content : String) (before : List ToolCall)
    (rest : List Members)
    → index ≡ length before
    → read_chunks (reading content before) (call_chunks c index calls ++ rest)
      ≡ read_chunks (reading content (before ++ calls)) rest
unfolding call_chunks read_chunks read_chunk chunk Json.get put_calls reading
read_chunks-calls c index [] content before rest next =
    ap (λ b. read_chunks (reading content b) rest) (sym (append-nil before))
read_chunks-calls c index (call ∷ calls) content before rest next =
    ap
      (λ s.
        read_chunks (reading s (put_call index call before))
          (call_chunks c (suc index) calls ++ rest))
      (append_empty content)
    ∙ ap (λ b. read_chunks (reading content b) (call_chunks c (suc index) calls ++ rest))
        (ap (λ n. put_call n call before) next ∙ put_call-next call before)
    ∙ read_chunks-calls c (suc index) calls content (before ++ call ∷ []) rest
        (ap (λ n. suc n) next ∙ length-next call before)
    ∙ ap (λ b. read_chunks (reading content b) rest) (append_assoc before (call ∷ []) calls)

read_last :
    (c : Completion)
    → read_chunks (reading c.content c.tool_calls) (chunk c [] (string c.finish_reason) ∷ [])
      ≡ answer_of c
unfolding read_chunks read_chunk chunk Json.get put_calls reading answer_of
read_last c =
    ap
      (λ s. record { content = s; tool_calls = c.tool_calls; finish_reason = some c.finish_reason })
      (append_empty c.content)

read_chunks-completion :
    (c : Completion) → read_chunks nothing_read (chunk_payloads c) ≡ answer_of c
unfolding chunk_payloads read_chunks read_chunk chunk Json.get put_calls reading answer_of
    with_content
read_chunks-completion c =
    let last = chunk c [] (string c.finish_reason) ∷ [] in
    ap (λ s. read_chunks (reading s []) (call_chunks c 0 c.tool_calls ++ last))
      (empty_append c.content)
    ∙ read_chunks-calls c 0 c.tool_calls c.content [] last refl
    ∙ read_last c

-- A client reads the same answer from the plain form of a completion and from its chunks, in order,
-- where it puts each tool call of a chunk at that call's index: the completion's text, its tool
-- calls with their ids, names and arguments, and its reason to finish.
pub chat_completion_chunks-read :
    (c : Completion)
    → (read_chunks nothing_read (chunk_payloads c) ≡ read_json (chat_completion_json c))
      × (read_json (chat_completion_json c) ≡ answer_of c)
unfolding chunk_payloads
chat_completion_chunks-read c =
    (read_chunks-completion c ∙ sym (read_json-completion c), read_json-completion c)
