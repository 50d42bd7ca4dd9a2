-- ===== src/Chat/History/Window.antt =====
-- What the trim of the history keeps.
use semidx.Prelude.{
  ℕ, suc, ◌+◌, ◌-◌, ◌≤◌, ◌<◌, min, ◌≡◌, ◌⊎◌, refl, sym, ◌∙◌, ap, Bool, true, false, ◌&&◌, List, [],
  ◌∷◌, ◌++◌, take, drop, leb, ◌==◌, length, arith, Bool-cases, inl, inr, take-append-drop,
  length-take,
}
use semidx.Prelude.Bytes.{Bytes, codes, bytes_beq, bytes_beq_iff}
use semidx.Prelude.Int.{pos}
use semidx.Chat.History.{
  Message, is_user, is_assistant, is_system, count_system_prefix, count_users, count_users_from,
  cut_from, find_turn_cut_point, kept, trim, add,
}

not_user :
    (m : Message) (role : Bytes)
    → bytes_beq role (codes "user") ≡ false
    → bytes_beq m.role role ≡ true
    → is_user m ≡ false
not_user m role other h =
    let same : m.role ≡ role = (bytes_beq_iff m.role role).0 h in rw same other

count_users-append :
    (xs ys : List Message) → count_users (xs ++ ys) ≡ count_users xs + count_users ys
unfolding count_users
count_users-append [] ys = omega arith
count_users-append (m ∷ xs) ys = ground (arith, count_users-append xs ys)

-- the system messages at the start hold no user
count_users-drop :
    (ms : List Message) → count_users (drop (count_system_prefix ms) ms) ≡ count_users ms
unfolding count_users count_system_prefix
count_users-drop [] = refl
count_users-drop (m ∷ ms) = elim (Bool-cases (is_system m)) [
  | inl system ↦
      let none_here : is_user m ≡ false = not_user m (codes "system") refl system in
      rw (system, none_here) (count_users-drop ms)
  | inr other ↦ rw other refl
]

-- The cut passes over the messages `gone` and no others, with `to_remove` users among them.
record Cuts (ms : List Message) (cut to_remove found : ℕ) : Type 0 where
  pub gone : List Message
  pub rest : List Message
  pub split : ms ≡ gone ++ rest
  pub index : found ≡ cut + length gone
  pub users : count_users rest + to_remove ≡ count_users ms

Cuts-step :
    (m : Message) (ms : List Message) (cut r r' found : ℕ)
    → Cuts ms (suc cut) r' found
    → count_users ms + r ≡ r' + count_users (m ∷ ms)
    → Cuts (m ∷ ms) cut r found
Cuts-step m ms cut r r' found c h = record {
  gone = m ∷ c.gone;
  rest = c.rest;
  split = ap (λ t. m ∷ t) c.split;
  index = omega (arith, c.index);
  users = omega (arith, c.users);
}

cut_from-Cuts :
    (paired : Bool) (ms : List Message) (cut to_remove : ℕ)
    → to_remove ≤ count_users ms
    → Cuts ms cut to_remove (cut_from paired ms cut to_remove)
unfolding cut_from count_users
cut_from-Cuts paired [] cut r le = record {
  gone = [];
  rest = [];
  split = refl;
  index = omega arith;
  users = omega arith;
}
cut_from-Cuts paired (m ∷ ms) cut r le = elim (Bool-cases (paired && is_assistant m)) [
  | inl pair ↦
      let no_user : is_user m ≡ false = not_user m (codes "assistant") refl (ground arith) in
      rw pair (
        Cuts-step m ms cut r r _ (cut_from-Cuts false ms (suc cut) r (ground arith)) (ground arith))
  | inr single ↦ elim (Bool-cases (r == 0)) [
    | inl done ↦
        rw (single, done)
          (record {
            gone = [];
            rest = m ∷ ms;
            split = refl;
            index = omega arith;
            users = ground arith;
          })
    | inr more ↦ elim (Bool-cases (is_user m)) [
      | inl user ↦
          rw (single, more, user)
            (Cuts-step m ms cut r (r - 1) _ (cut_from-Cuts true ms (suc cut) (r - 1) (ground arith))
              (ground arith))
      | inr other ↦
          rw (single, more, other)
            (Cuts-step m ms cut r r _ (cut_from-Cuts false ms (suc cut) r (ground arith))
              (ground arith))
    ]
  ]
]

drop-append : {A : Type 0} (xs ys : List A) (n : ℕ) → drop (length xs + n) (xs ++ ys) ≡ drop n ys
drop-append [] ys n = ap (λ k. drop k ys) (omega arith)
drop-append (x ∷ xs) ys n =
    let e : suc (length xs) + n ≡ suc (length xs + n) = omega arith in rw e (drop-append xs ys n)

drop_all : {A : Type 0} (xs ys : List A) (n : ℕ) → n ≡ length xs → drop n (xs ++ ys) ≡ ys
drop_all xs ys n h = let e : n ≡ length xs + 0 = omega arith in rw e (drop-append xs ys 0)

count_system_prefix-le : (ms : List Message) → count_system_prefix ms ≤ length ms
unfolding count_system_prefix
count_system_prefix-le [] = omega arith
count_system_prefix-le (m ∷ ms) = ground (arith, count_system_prefix-le ms)

length_system :
    (ms : List Message) → length (take (count_system_prefix ms) ms) ≡ count_system_prefix ms
length_system ms = omega (arith, length-take (count_system_prefix ms) ms, count_system_prefix-le ms)

-- The messages `ms` cut down to `out`: the system messages at the start stay, the messages `gone`
-- behind them go, at most `limit` users are left, and fewer only if there were fewer. If anything
-- goes, something behind it stays.
pub record IsTrimmed (limit : ℕ) (ms out : List Message) : Type 0 where
  pub system : List Message
  pub gone : List Message
  pub rest : List Message
  pub before : ms ≡ system ++ (gone ++ rest)
  pub after : out ≡ system ++ rest
  pub prefix : length system ≡ count_system_prefix ms
  pub users : count_users out ≡ min limit (count_users ms)
  pub newest : (gone ≡ []) ⊎ (0 < length rest)

some_users : (ms : List Message) → 0 < count_users ms → 0 < length ms
unfolding count_users
some_users [] h = absurd (omega arith)
some_users (m ∷ ms) h = omega arith

module _ (limit : ℕ) (ms : List Message) (pos_limit : 0 < limit) where
  abbrev prefix : List Message
  prefix = take (count_system_prefix ms) ms

  abbrev body : List Message
  body = drop (count_system_prefix ms) ms

  users_body : count_users body ≡ count_users ms
  users_body = count_users-drop ms

  users_prefix : count_users prefix ≡ 0
  users_prefix =
      let whole : count_users (prefix ++ body) ≡ count_users ms =
        ap count_users (take-append-drop (count_system_prefix ms) ms) in
      omega (arith, users_body, count_users-append prefix body)

  kept_cut :
      (c : Cuts body
        (count_system_prefix ms)
        (count_users body - limit)
        (find_turn_cut_point ms (count_system_prefix ms) (count_users body - limit)))
      → limit < count_users body
      → IsTrimmed limit ms (
          prefix
          ++ drop (find_turn_cut_point ms (count_system_prefix ms) (count_users body - limit)) ms)
  kept_cut c over =
      let found = find_turn_cut_point ms (count_system_prefix ms) (count_users body - limit) in
      let whole : ms ≡ prefix ++ (c.gone ++ c.rest) =
        sym (take-append-drop (count_system_prefix ms) ms) ∙ ap (λ t. prefix ++ t) c.split in
      let index : found ≡ length prefix + length c.gone =
        omega (arith, c.index, length_system ms) in
      let dropped : drop found ms ≡ c.rest =
        ap (drop found) whole
        ∙ ap (λ n. drop n (prefix ++ (c.gone ++ c.rest))) index
        ∙ drop-append prefix (c.gone ++ c.rest) (length c.gone)
        ∙ drop_all c.gone c.rest (length c.gone) refl in
      record {
        system = prefix;
        gone = c.gone;
        rest = c.rest;
        before = whole;
        after = ap (λ t. prefix ++ t) dropped;
        prefix = length_system ms;
        users =
            ap (λ t. count_users (prefix ++ t)) dropped
            ∙ omega (arith, count_users-append prefix c.rest, users_prefix, users_body, c.users);
        newest = inr (some_users c.rest (omega (arith, c.users)));
      }

  kept-IsTrimmed : IsTrimmed limit ms (kept limit ms)
  unfolding kept count_users_from
  kept-IsTrimmed = elim (Bool-cases (leb (count_users body) limit)) [
    | inl few ↦ rw few (record {
      system = prefix;
      gone = [];
      rest = body;
      before = sym (take-append-drop (count_system_prefix ms) ms);
      after = sym (take-append-drop (count_system_prefix ms) ms);
      prefix = length_system ms;
      users = ground (arith, users_body);
      newest = inl refl;
    })
    | inr over ↦ rw over (
        kept_cut
          (unfold find_turn_cut_point in
            cut_from-Cuts false body (count_system_prefix ms) (count_users body - limit)
              (omega arith))
          (ground arith))
  ]

-- Adding a message of any role to a history with a limit above 0: the message comes last, the
-- system messages at the start stay, and the oldest of the others go until no more users than the
-- limit are left. If any go, one behind them stays, so the added message is never dropped.
pub add-IsTrimmed :
    (role content : Bytes) (n : ℕ) (ms : List Message)
    → IsTrimmed
        (n + 1)
        (ms ++ (record { role = role; content = content } ∷ []))
        (add role content (record { messages = ms; max_turns = pos (n + 1) })).messages
unfolding trim
add-IsTrimmed role content n ms =
    let above : leb (n + 1) 0 ≡ false = ground arith in
    let limited : ((n + 1) == 0) ≡ false = ground arith in
    rw (above, limited)
      (kept-IsTrimmed (n + 1) (ms ++ (record { role = role; content = content } ∷ []))
        (omega arith))
