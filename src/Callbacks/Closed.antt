-- ===== src/Callbacks/Closed.antt =====
-- The closed turns of callbacks.py: what can be found of a turn after its end.
use hermes_stagewhisper_plug.Prelude.{
  ℕ, zero, suc, ◌≤◌, ◌<◌, String, ◌≡◌, ◌∙◌, some, [], ◌∷◌, ◌++◌, ◌==◌, eq_refl, arith, length,
  if◌then◌else◌,
}
use hermes_stagewhisper_plug.Dict
use hermes_stagewhisper_plug.Dict.{Dict}
use hermes_stagewhisper_plug.Dict.Laws.{length-drop_to-le}
use hermes_stagewhisper_plug.Callbacks.{CallbackHandle, remember, by_task, by_chat, newest_of_chat}
use hermes_stagewhisper_plug.Callbacks.Recency.{move_to_end-put, drop_to-append, get-drop_to-touch}

newest-append :
    (chat_id : String) (d : Dict CallbackHandle) (k : String) (handle : CallbackHandle)
    → newest_of_chat chat_id (d ++ (k, handle) ∷ [])
      ≡ (if handle.chat_id == chat_id then some handle else newest_of_chat chat_id d)
unfolding newest_of_chat
newest-append chat_id [] k handle = ground arith
newest-append chat_id ((j, older) ∷ d) k handle = ground (arith, newest-append chat_id d k handle)

remember_turns :
    (n : ℕ) (d : Dict CallbackHandle) (handle : CallbackHandle)
    → (remember (record { capacity = suc n; turns = d }) handle).turns
      ≡ Dict.drop_to n (Dict.remove d handle.task_id) ++ (handle.task_id, handle) ∷ []
unfolding remember
remember_turns n d handle = rw (move_to_end-put, drop_to-append)

-- A turn that is remembered is found at once by its task and by its chat, whatever was
-- remembered before, and no more turns are held than the capacity.
pub remember-found :
    (capacity : ℕ) (d : Dict CallbackHandle) (handle : CallbackHandle)
    → 0 < capacity
    → (by_task (remember (record { capacity = capacity; turns = d }) handle) handle.task_id
        ≡ some handle)
      × (by_chat (remember (record { capacity = capacity; turns = d }) handle) handle.chat_id
          ≡ some handle)
      × (length (remember (record { capacity = capacity; turns = d }) handle).turns ≤ capacity)
unfolding by_task by_chat
remember-found zero d handle h = absurd (omega arith)
remember-found (suc n) d handle h = (
  unfold remember in rw move_to_end-put (get-drop_to-touch (suc n) d handle.task_id handle h),
  rw remember_turns (
      newest-append handle.chat_id (Dict.drop_to n (Dict.remove d handle.task_id)) handle.task_id
        handle
      ∙ ground (arith, eq_refl handle.chat_id)),
  unfold remember in length-drop_to-le (suc n) _,
)
