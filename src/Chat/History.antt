-- ===== src/Chat/History.antt =====
-- The message history of internal/chat/history.go. A method returns the new history.
pub mod Window
pub mod Limit
mod Tests
use semidx.Prelude.{
  ℕ, zero, suc, ◌+◌, ◌-◌, Bool, true, false, not, ◌&&◌, List, [], ◌∷◌, ◌++◌, take, drop, leb, ◌==◌,
  if◌then◌else◌,
}
use semidx.Prelude.Bytes.{Bytes, codes, bytes_beq}
use semidx.Prelude.Int.{ℤ, positive_or}

-- The tool calls of a message, which the history neither sets nor reads, are left out.
pub record Message : Type 0 where
  pub role : Bytes
  pub content : Bytes

pub record History : Type 0 where
  pub messages : List Message
  pub max_turns : ℤ

unfoldable pub new_history : ℤ → History
new_history max_turns = record { messages = []; max_turns = max_turns }

abbrev pub is_user : Message → Bool
is_user m = bytes_beq m.role (codes "user")

abbrev pub is_assistant : Message → Bool
is_assistant m = bytes_beq m.role (codes "assistant")

abbrev pub is_system : Message → Bool
is_system m = bytes_beq m.role (codes "system")

pub count_system_prefix : List Message → ℕ
count_system_prefix [] = 0
count_system_prefix (m ∷ ms) =
    let rest = count_system_prefix ms in if is_system m then suc rest else 0

pub count_users : List Message → ℕ
count_users [] = 0
count_users (m ∷ ms) = let rest = count_users ms in if is_user m then suc rest else rest

pub count_users_from : List Message → ℕ → ℕ
unfolding count_users
count_users_from messages from = count_users (drop from messages)

-- The loop of `findTurnCutPoint` at index `cut` over the messages that are left; with `paired`, the
-- message before is a user whose assistant is to be passed over.
pub cut_from : Bool → List Message → ℕ → ℕ → ℕ
cut_from paired [] cut to_remove = cut
cut_from paired (m ∷ ms) cut to_remove =
    let pair = paired && is_assistant m in
    let user = not pair && is_user m in
    let rest = cut_from user ms (suc cut) (if user then to_remove - 1 else to_remove) in
    if not pair && (to_remove == 0) then cut else rest

pub find_turn_cut_point : List Message → ℕ → ℕ → ℕ
unfolding cut_from
find_turn_cut_point messages start to_remove = cut_from false (drop start messages) start to_remove

-- what `trim` keeps of the messages, for a limit above 0
pub kept : ℕ → List Message → List Message
unfolding count_system_prefix count_users_from find_turn_cut_point
kept limit messages =
    let system_count = count_system_prefix messages in
    let user_count = count_users_from messages system_count in
    let cut = find_turn_cut_point messages system_count (user_count - limit) in
    if leb user_count limit then messages else take system_count messages ++ drop cut messages

unfoldable pub trim : History → History
unfolding kept
trim h =
    let limit = positive_or 0 h.max_turns in
    if limit == 0 then h else record h { messages = kept limit h.messages }

abbrev pub add : Bytes → Bytes → History → History
add role content h =
    trim (record h { messages = h.messages ++ (record { role = role; content = content } ∷ []) })

unfoldable pub add_user : Bytes → History → History
add_user content h = add (codes "user") content h

unfoldable pub add_assistant : Bytes → History → History
add_assistant content h = add (codes "assistant") content h

unfoldable pub add_system : Bytes → History → History
add_system content h = add (codes "system") content h

unfoldable pub get_messages : History → List Message
get_messages h = h.messages

unfoldable pub clear : History → History
clear h = record h { messages = [] }
