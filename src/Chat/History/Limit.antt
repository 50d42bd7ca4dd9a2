-- ===== src/Chat/History/Limit.antt =====
-- The limit of the history over every sequence of edits.
use semidx.Prelude.{
  ℕ, ◌+◌, ◌≤◌, ◌≡◌, refl, sym, ◌∙◌, ap, Bool-cases, inl, inr, List, [], ◌∷◌, ◌++◌, ◌==◌, arith,
  subst,
}
use semidx.Prelude.Bytes.{Bytes, codes}
use semidx.Prelude.Int.{pos, positive_or}
use semidx.Chat.History.{
  History, new_history, count_users, trim, add, add_user, add_assistant, add_system, clear,
}
use semidx.Chat.History.Window.{add-IsTrimmed}

-- The methods that change the history.
pub data Edit : Type 0 where
  user_edit : Bytes → Edit
  assistant_edit : Bytes → Edit
  system_edit : Bytes → Edit
  clear_edit : Edit

abbrev pub edit : Edit → History → History
edit (user_edit content) h = add_user content h
edit (assistant_edit content) h = add_assistant content h
edit (system_edit content) h = add_system content h
edit clear_edit h = clear h

abbrev pub edits : List Edit → History → History
edits [] h = h
edits (e ∷ es) h = edits es (edit e h)

record IsWithin (n : ℕ) (h : History) : Type 0 where
  pub limit : h.max_turns ≡ pos (n + 1)
  pub few : count_users h.messages ≤ n + 1

max_turns-trim : (h : History) → (trim h).max_turns ≡ h.max_turns
unfolding trim
max_turns-trim h = elim (Bool-cases (positive_or 0 h.max_turns == 0)) [
  | inl none_set ↦ rw none_set refl
  | inr set ↦ rw set refl
]

add-IsWithin :
    (role content : Bytes) (n : ℕ) (h : History) → IsWithin n h → IsWithin n (add role content h)
add-IsWithin role content n h w = record {
  limit =
      max_turns-trim
        (record h { messages = h.messages ++ (record { role = role; content = content } ∷ []) })
      ∙ w.limit;
  few =
      let same : add role content (record { messages = h.messages; max_turns = pos (n + 1) })
          ≡ add role content h =
        ap (λ z. add role content (record { messages = h.messages; max_turns = z }))
          (sym w.limit) in
      subst (λ (k : History). count_users k.messages ≤ n + 1) same
        (omega (arith, (add-IsTrimmed role content n h.messages).users));
}

edit-IsWithin : (n : ℕ) (e : Edit) (h : History) → IsWithin n h → IsWithin n (edit e h)
unfolding add_user add_assistant add_system clear
edit-IsWithin n (user_edit content) h w = add-IsWithin (codes "user") content n h w
edit-IsWithin n (assistant_edit content) h w = add-IsWithin (codes "assistant") content n h w
edit-IsWithin n (system_edit content) h w = add-IsWithin (codes "system") content n h w
edit-IsWithin n clear_edit h w = record { limit = w.limit; few = unfold count_users in omega arith }

edits-IsWithin : (n : ℕ) (es : List Edit) (h : History) → IsWithin n h → IsWithin n (edits es h)
edits-IsWithin n [] h w = w
edits-IsWithin n (e ∷ es) h w = edits-IsWithin n es (edit e h) (edit-IsWithin n e h w)

-- A new history with a limit of `n + 1` turns never holds more than `n + 1` messages of users,
-- whatever messages are added and whenever it is cleared.
pub edits_new-few :
    (n : ℕ) (es : List Edit) → count_users (edits es (new_history (pos (n + 1)))).messages ≤ n + 1
unfolding new_history
edits_new-few n es =
    (edits-IsWithin n es (record { messages = []; max_turns = pos (n + 1) })
      (record { limit = refl; few = unfold count_users in omega arith })).few
