-- ===== src/Demo/Gm/Lines.antt =====
-- What a peer sends, from the line to the server and back.
use coroutine_transaction.Base.{
  append-nil, ℕ, ◌-◌, ◌^◌, ◌<◌, ◌≤◌, ◌≡◌, ◌≢◌, ◌∙◌, refl, sym, ap, inl, inr, true, false, Option,
  none, some, List, [], ◌∷◌, ◌++◌, ℤ, pos, arith, ==-ne, Bool-cases, leb, ltb, ◌==◌, length, ◌&&◌,
  Option-cases,
}
use coroutine_transaction.Coroutine.{create_work_routine}
use coroutine_transaction.Transaction.{Instance, Transaction}
use coroutine_transaction.Server.{Server}
use coroutine_transaction.Server.Calls.{send_msg_event_to_tran, start_transaction}
use coroutine_transaction.Server.Create.{MakeEnv, new_instance, start_common_transaction}
use coroutine_transaction.Server.Steps.{Reachable}
use coroutine_transaction.Server.Answers.{started-code}
use coroutine_transaction.Demo.Text.{
  codes, Strto, is_digit, is_nil, ok, throws, invalid_argument, strto_unsigned, strto_signed,
  to_string, words,
}
use coroutine_transaction.Demo.Text.Numbers.{
  Word, to_string-Word, to_string-Numeral, words_from-space, words_from-last,
  strto_unsigned_not_number, strto_unsigned-to_string, strto_signed-to_string,
}
use coroutine_transaction.Demo.Gm.{
  returns, raises, faults, eq_text, call_gm, call_words, call_found, gm_start, gm_invoke,
  invoke_params, start_param, register_gm, register_all_gm,
}

-- A line of words, with a space between each two.
words_two :
    (a b : List ℕ)
    → Word a
    → is_nil a ≡ false
    → Word b
    → is_nil b ≡ false
    → words (a ++ (32 ∷ b)) ≡ a ∷ b ∷ []
unfolding words
words_two a b h i k j = words_from-space a b h i ∙ ap (λ t. a ∷ t) (words_from-last b k j)

words_three :
    (a b c : List ℕ)
    → Word a
    → is_nil a ≡ false
    → Word b
    → is_nil b ≡ false
    → Word c
    → is_nil c ≡ false
    → words (a ++ (32 ∷ (b ++ (32 ∷ c)))) ≡ a ∷ b ∷ c ∷ []
unfolding words
words_three a b c h i k j l m =
    words_from-space a (b ++ (32 ∷ c)) h i
    ∙ ap (λ t. a ∷ t) (words_from-space b c k j ∙ ap (λ t. b ∷ t) (words_from-last c l m))

-- A printed number is read back, with no space around it.
unsigned_lem :
    (bits n : ℕ) → n < 2 ^ bits → 2 ^ bits ≤ 2 ^ 64 → strto_unsigned bits (to_string n) ≡ ok n
unsigned_lem bits n h k =
    ap (strto_unsigned bits) (sym (append-nil (to_string n)))
    ∙ strto_unsigned-to_string bits n [] [] tt tt h k

signed_lem :
    (bits n : ℕ)
    → n < 2 ^ (bits - 1)
    → 2 ^ (bits - 1) ≤ 2 ^ 63
    → strto_signed bits (to_string n) ≡ ok (pos n)
signed_lem bits n h k =
    ap (strto_signed bits) (sym (append-nil (to_string n)))
    ∙ strto_signed-to_string bits n [] [] tt tt h k

invoke-Word : Word (codes "invoke")
invoke-Word = (refl, (refl, (refl, (refl, (refl, (refl, tt))))))

start-Word : Word (codes "start")
start-Word = (refl, (refl, (refl, (refl, (refl, tt)))))

module _ {U : Type 0} (tran_of : ℕ → Option (Transaction U)) where
  -- The line `invoke <id> <event>` of a transaction of the map and an event of the demo, with the
  -- numbers as std::to_string prints them, sends that event to that transaction and returns what
  -- SendMsgEventToTran returns, with no text.
  pub call_gm-invoke :
      (make : MakeEnv) (peer id v : ℕ) (inst : Instance) (s : Server U)
      → id < 2 ^ 64
      → 1000 ≤ v
      → v ≤ 1004
      → s.trans_map id ≡ some inst
      → let line = codes "invoke" ++ (32 ∷ (to_string id ++ (32 ∷ to_string v))) in
        let r = send_msg_event_to_tran tran_of make.env id v s in
        call_gm (register_all_gm tran_of) make peer line s ≡ returns r.1 [] r.0
  unfolding call_gm register_all_gm register_gm gm_invoke
  call_gm-invoke make peer id v inst s h lo hi e =
      let small : v < 2 ^ 64 = omega arith in
      let w : words (codes "invoke" ++ (32 ∷ (to_string id ++ (32 ∷ to_string v))))
          ≡ codes "invoke" ∷ to_string id ∷ to_string v ∷ [] =
        words_three (codes "invoke") (to_string id) (to_string v) invoke-Word refl
          (to_string-Word id h) (to_string-Numeral id h).0 (to_string-Word v small)
          (to_string-Numeral v small).0 in
      let a = unsigned_lem 64 id (omega arith) (omega arith) in
      let b = signed_lem 32 v (omega arith) (omega arith) in
      let c : (leb 1000 v && leb v 1004) ≡ true = ground arith in rw (w, a, b, e, c) refl

  -- The line `start <type>` with a type that the server knows: in a reachable state, with a peer that
  -- has an id and a new id of the generator, and if the coroutine can be made, a transaction of that
  -- type is started with the peer as its owner, and the text names its id.
  pub call_gm-start :
      (make : MakeEnv) (peer type : ℕ) (tr : Transaction U) (s : Server U)
      → Reachable tran_of s
      → type ≤ 3
      → tran_of type ≡ some tr
      → peer ≢ 0
      → make.guid ≢ 0
      → s.trans_map make.guid ≡ none
      → (create_work_routine make.env.mem make.env.coroutine_id
          (pos 524288)
          1
          make.guid
          s.scheduler).1
        ≡ pos 0
      → call_gm (register_all_gm tran_of) make peer (codes "start" ++ (32 ∷ to_string type)) s
        ≡ returns
            (pos 0)
            (codes "start transaction success, transaction id: " ++ to_string make.guid)
            (start_transaction tran_of make.env (new_instance make.guid type peer 0 0) s).0
  unfolding call_gm register_all_gm register_gm gm_start start_common_transaction
  call_gm-start make peer type tr s r valid g np ng free made =
      let small : type < 2 ^ 64 = omega arith in
      let w : words (codes "start" ++ (32 ∷ to_string type)) ≡ codes "start" ∷ to_string type ∷ [] =
        words_two (codes "start") (to_string type) start-Word refl (to_string-Word type small)
          (to_string-Numeral type small).0 in
      let a = unsigned_lem 32 type (omega arith) (omega arith) in
      let b : leb type 3 ≡ true = ground arith in
      let ok_start =
        started-code tran_of make.env (new_instance make.guid type peer 0 0) tr s r ng refl refl g
          free
        ∙ made in
      rw (w, a, b, g, ==-ne peer 0 np, ok_start) refl

  invoke_params-ne-faults :
      (make : MakeEnv) (p : Strto ℕ) (q : Strto ℤ) (s : Server U)
      → invoke_params tran_of make p q s ≢ faults
  invoke_params-ne-faults make (throws e) q s h = cc h
  invoke_params-ne-faults make (ok id) (throws e) s h = cc h
  invoke_params-ne-faults make (ok id) (ok v) s h = elim (Option-cases (s.trans_map id)) [
    | inl e ↦ cc (rw e at h)
    | inr (inst, e) ↦ (let h' = (rw e at h) in ground arith)
  ]

  start_param-ne-faults :
      (make : MakeEnv) (peer : ℕ) (p : Strto ℕ) (s : Server U)
      → start_param tran_of make peer p s ≢ faults
  start_param-ne-faults make peer (throws e) s h = cc h
  start_param-ne-faults make peer (ok t) s h = ground arith

  invoke_found-ne-faults :
      (make : MakeEnv) (peer : ℕ) (name : List ℕ) (rest : List (List ℕ)) (s : Server U)
      → call_found
          (some (record { min_params = 2; func = gm_invoke tran_of }))
          make
          peer
          (name ∷ rest)
          s
        ≢ faults
  unfolding gm_invoke
  invoke_found-ne-faults make peer name [] s h = cc h
  invoke_found-ne-faults make peer name (p ∷ []) s h = cc h
  invoke_found-ne-faults make peer name (p ∷ (q ∷ ps)) s h =
      elim (Bool-cases (ltb (length (name ∷ p ∷ q ∷ ps) - 1) 2)) [
        | inl b ↦ cc (rw b at h)
        | inr b ↦
            invoke_params-ne-faults make (strto_unsigned 64 p) (strto_signed 32 q) s (rw b at h)
      ]

  start_found-ne-faults :
      (make : MakeEnv) (peer : ℕ) (name : List ℕ) (rest : List (List ℕ)) (s : Server U)
      → call_found
          (some (record { min_params = 1; func = gm_start tran_of }))
          make
          peer
          (name ∷ rest)
          s
        ≢ faults
  unfolding gm_start
  start_found-ne-faults make peer name [] s h = cc h
  start_found-ne-faults make peer name (p ∷ ps) s h =
      elim (Bool-cases (ltb (length (name ∷ p ∷ ps) - 1) 1)) [
        | inl b ↦ cc (rw b at h)
        | inr b ↦ start_param-ne-faults make peer (strto_unsigned 32 p) s (rw b at h)
      ]

  call_words-ne-faults :
      (make : MakeEnv) (peer : ℕ) (ws : List (List ℕ)) (s : Server U)
      → call_words (register_all_gm tran_of) make peer ws s ≢ faults
  unfolding register_all_gm register_gm
  call_words-ne-faults make peer [] s h = cc h
  call_words-ne-faults make peer (name ∷ rest) s h =
      elim (Bool-cases (eq_text name (codes "invoke"))) [
        | inl b ↦ invoke_found-ne-faults make peer name rest s (rw b at h)
        | inr b ↦ elim (Bool-cases (eq_text name (codes "start"))) [
          | inl c ↦ start_found-ne-faults make peer name rest s (rw (b, c) at h)
          | inr c ↦ cc (rw (b, c) at h)
        ]
      ]

  -- No line of a peer makes a command of the demo read a parameter that the line does not have.
  pub call_gm-ne-faults :
      (make : MakeEnv) (peer : ℕ) (line : List ℕ) (s : Server U)
      → call_gm (register_all_gm tran_of) make peer line s ≢ faults
  unfolding call_gm
  call_gm-ne-faults make peer line s = call_words-ne-faults make peer (words line) s

  -- A word that is no number is thrown out of CallGM.
  pub call_gm-raises :
      (make : MakeEnv) (peer c : ℕ) (w : List ℕ) (s : Server U)
      → Word (c ∷ w)
      → is_digit c ≡ false
      → (c == 45) ≡ false
      → (c == 43) ≡ false
      → call_gm (register_all_gm tran_of) make peer (codes "start" ++ (32 ∷ (c ∷ w))) s
        ≡ raises invalid_argument s
  unfolding call_gm register_all_gm register_gm gm_start
  call_gm-raises make peer c w s h d m p =
      rw
        (
          words_two (codes "start") (c ∷ w) start-Word refl h refl,
          strto_unsigned_not_number 32 c w h d m p,
        )
        refl
