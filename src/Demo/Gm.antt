-- ===== src/Demo/Gm.antt =====
-- The commands that a peer sends as a line of text: demo/gm.cpp. A call may end by an exception of
-- Utils::strto, and `faults` stands for a read of a parameter that is not there.
pub mod Lines
use coroutine_transaction.Base.{
  ℕ, ◌-◌, Bool, true, false, not, ◌&&◌, Option, none, some, List, [], ◌∷◌, ◌++◌, length, ℤ, pos,
  negsuc, leb, ltb, ◌==◌, if◌then◌else◌,
}
use coroutine_transaction.Transaction.{Instance, Transaction}
use coroutine_transaction.Server.{Server}
use coroutine_transaction.Server.Calls.{send_msg_event_to_tran}
use coroutine_transaction.Server.Create.{MakeEnv, start_common_transaction}
use coroutine_transaction.Demo.Text.{
  codes, Strto, ok, throws, StrtoError, strto_unsigned, strto_signed, to_string, to_string_signed,
  words,
}

-- The value and `out_str`, with the server that is left.
pub data Outcome (U : Type 0) : Type 0 where
  returns : ℤ → List ℕ → Server U → Outcome U
  raises : StrtoError → Server U → Outcome U
  faults : Outcome U

-- GMFunc and GMFuncInfo.
abbrev pub GmFunc : Type 0 → Type 0
GmFunc U = MakeEnv → ℕ → List (List ℕ) → Server U → Outcome U

pub record GmFuncInfo (U : Type 0) : Type 0 where
  pub min_params : ℕ
  pub func : GmFunc U

abbrev pub eq_text : List ℕ → List ℕ → Bool
eq_text [] [] = true
eq_text (x ∷ xs) (y ∷ ys) = x == y && eq_text xs ys
eq_text _ _ = false

-- TransactionType_IsValid and TranEventType_IsValid, of the demo's protocol files.
abbrev pub type_is_valid : ℕ → Bool
type_is_valid t = leb t 3

abbrev pub event_is_valid : ℤ → Bool
event_is_valid (pos v) = leb 1000 v && leb v 1004
event_is_valid (negsuc _) = false

abbrev pub event_number : ℤ → ℕ
event_number (pos v) = v
event_number (negsuc _) = 0

-- GMMap.
abbrev pub GmMap : Type 0 → Type 0
GmMap U = List ℕ → Option (GmFuncInfo U)

module _ {U : Type 0} where
  -- GMMgr::RegisterGM.
  pub register_gm : List ℕ → GmFuncInfo U → GmMap U → GmMap U × ℤ
  register_gm name info gm_map = elim (gm_map name) [
    | some _ ↦ (gm_map, negsuc 0)
    | none ↦ ((λ n. if eq_text n name then some info else gm_map n), pos 0)
  ]

  -- GMMgr::CallGM, behind its search for the command.
  abbrev pub call_found : Option (GmFuncInfo U) → GmFunc U
  call_found none make peer param s = returns (negsuc 1) [] s
  call_found (some info) make peer param s =
      if ltb (length param - 1) info.min_params
      then returns (negsuc 2) [] s
      else info.func make peer param s

  abbrev pub call_words : GmMap U → MakeEnv → ℕ → List (List ℕ) → Server U → Outcome U
  call_words gm_map make peer [] s = returns (negsuc 0) [] s
  call_words gm_map make peer (name ∷ rest) s = call_found (gm_map name) make peer (name ∷ rest) s

  -- GMMgr::CallGM.
  pub call_gm : GmMap U → MakeEnv → ℕ → List ℕ → Server U → Outcome U
  call_gm gm_map make peer token s = call_words gm_map make peer (words token) s

module _ {U : Type 0} (tran_of : ℕ → Option (Transaction U)) where
  -- GMStart, on what StartCommonTransaction saves.
  abbrev pub started : Option ℕ × Server U × ℤ → Outcome U
  started (none, s, _) = returns (negsuc 2) [] s
  started (some id, s, _) =
      returns (pos 0) (codes "start transaction success, transaction id: " ++ to_string id) s

  -- What GetTranByType finds.
  abbrev pub start_found : Option (Transaction U) → MakeEnv → ℕ → ℕ → Server U → Outcome U
  start_found none make peer type s =
      returns (negsuc 1) (codes "transaction type not found: " ++ to_string type) s
  start_found (some _) make peer type s =
      started (start_common_transaction tran_of make type peer 0 0 s)

  abbrev pub start_type : MakeEnv → ℕ → ℕ → Server U → Outcome U
  start_type make peer type s =
      if not (type_is_valid type)
      then returns (negsuc 0) (codes "invalid transaction type: " ++ to_string type) s
      else start_found (tran_of type) make peer type s

  abbrev pub start_param : MakeEnv → ℕ → Strto ℕ → Server U → Outcome U
  start_param make peer (throws e) s = raises e s
  start_param make peer (ok type) s = start_type make peer type s

  -- GMStart.
  pub gm_start : GmFunc U
  gm_start make peer [] s = faults
  gm_start make peer (_ ∷ []) s = faults
  gm_start make peer (_ ∷ (p ∷ _)) s = start_param make peer (strto_unsigned 32 p) s

  -- GMInvoke, on its two numbers and what GetTranInst finds.
  abbrev pub invoke_found : Option Instance → MakeEnv → ℕ → ℤ → Server U → Outcome U
  invoke_found none make id event s =
      returns (negsuc 0) (codes "transaction instance " ++ (to_string id ++ codes " not found")) s
  invoke_found (some _) make id event s =
      if not (event_is_valid event)
      then returns (negsuc 1) (codes "invalid event id: " ++ to_string_signed event) s
      else let (s', ret) = send_msg_event_to_tran tran_of make.env id (event_number event) s in
        returns ret [] s'

  abbrev pub invoke_event : MakeEnv → ℕ → ℤ → Server U → Outcome U
  invoke_event make id event s = invoke_found (s.trans_map id) make id event s

  abbrev pub invoke_params : MakeEnv → Strto ℕ → Strto ℤ → Server U → Outcome U
  invoke_params make (throws e) _ s = raises e s
  invoke_params make (ok id) (throws e) s = raises e s
  invoke_params make (ok id) (ok event) s = invoke_event make id event s

  -- GMInvoke.
  pub gm_invoke : GmFunc U
  gm_invoke make peer (_ ∷ (p ∷ (q ∷ _))) s =
      invoke_params make (strto_unsigned 64 p) (strto_signed 32 q) s
  gm_invoke make peer [] s = faults
  gm_invoke make peer (_ ∷ []) s = faults
  gm_invoke make peer (_ ∷ (_ ∷ [])) s = faults

  -- RegisterAllGM.
  pub register_all_gm : GmMap U
  unfolding register_gm
  register_all_gm =
      let (m1, _) =
        register_gm (codes "start") (record { min_params = 1; func = gm_start }) (λ _. none) in
      let (m2, _) = register_gm (codes "invoke") (record { min_params = 2; func = gm_invoke }) m1 in
      m2
