-- ===== src/Chat/History/Tests.antt =====
-- A history of two turns and a system message.
use semidx.Prelude.{◌≤◌, List, [], ◌∷◌, ◌++◌}
use semidx.Prelude.Bytes.{Bytes, codes}
use semidx.Prelude.Int.{pos}
use semidx.Chat.History.{Message, new_history, count_users, add}
use semidx.Chat.History.Window.{IsTrimmed, add-IsTrimmed}
use semidx.Chat.History.Limit.{Edit, user_edit, assistant_edit, system_edit, edits, edits_new-few}

abbrev message : Bytes → Bytes → Message
message role content = record { role = role; content = content }

abbrev two_turns : List Message
two_turns =
    message (codes "system") (codes "be short")
    ∷ message (codes "user") (codes "q1")
    ∷ message (codes "assistant") (codes "a1")
    ∷ message (codes "user") (codes "q2")
    ∷ message (codes "assistant") (codes "a2")
    ∷ []

add-IsTrimmed_example :
    IsTrimmed 2
      (two_turns ++ (message (codes "user") (codes "q3") ∷ []))
      (add
        (codes "user")
        (codes "q3")
        (record { messages = two_turns; max_turns = pos 2 })).messages
add-IsTrimmed_example = add-IsTrimmed (codes "user") (codes "q3") 1 two_turns

abbrev some_edits : List Edit
some_edits =
    system_edit (codes "be short")
    ∷ user_edit (codes "q1")
    ∷ assistant_edit (codes "a1")
    ∷ user_edit (codes "q2")
    ∷ []

edits_new-few_example : count_users (edits some_edits (new_history (pos 1))).messages ≤ 1
edits_new-few_example = edits_new-few 0 some_edits
