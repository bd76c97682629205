-- ===== src/Service/Rpc.antt =====
-- peer/runtime_ops.go: the JSON-RPC service, handleRPC and its helpers. A parameter of a request is a
-- JSON value; json.Unmarshal of null leaves a variable as it was.
use pokoinpos.Prelude.{
  ℕ, ◌+◌, Bool, true, false, ◌&&◌, not, Option, none, some, List, [], ◌∷◌, if◌then◌else◌, length,
  ltb,
}
use pokoinpos.Prelude.Int.{ℤ, pos, negsuc}
use pokoinpos.Text.{Text, txt, text_eq, to_lower}
use pokoinpos.GoMap.{Map, at, insert}
use pokoinpos.Ledger.{EvmLog}
use pokoinpos.Service.{
  Any, Anys, Fields, nil, text, number, boolean, items, object, no_items, item, no_fields, field,
  literal, slice, hex_quantity,
}

-- What a method answers: a result, or the code and the message of an error.
pub data Answer : Type 0 where
  result : Any → Answer
  rpc_error : ℤ → Text → Answer

-- The code -32602.
abbrev pub invalid_params : Text → Answer
invalid_params message = rpc_error (negsuc 32601) message

-- json.Unmarshal into a string, and into a bool, that hold a value.
unfoldable pub read_text : Text → Any → Option Text
read_text old (text s) = some s
read_text old nil = some old
read_text old _ = none

unfoldable pub read_boolean : Bool → Any → Option Bool
read_boolean old (boolean b) = some b
read_boolean old nil = some old
read_boolean old _ = none

-- json.Unmarshal into a map[string]any without entries.
unfoldable pub read_fields : Any → Option Fields
read_fields (object fields) = some fields
read_fields nil = some no_fields
read_fields _ = none

unfoldable pub or_old {ℓ} : {A : Type ℓ} → A → Option A → A
or_old old none = old
or_old old (some a) = a

-- `value, _ := m[key].(string)`
unfoldable pub field_text : Text → Fields → Text
field_text key no_fields = []
field_text key (field k (text s) rest) = if text_eq k key then s else field_text key rest
field_text key (field k _ rest) = if text_eq k key then [] else field_text key rest

-- `m[key]`, nil where it is missing.
unfoldable pub field_of : Text → Fields → Any
field_of key no_fields = nil
field_of key (field k value rest) = if text_eq k key then value else field_of key rest

-- The first parameter as a text, or the error for a missing or a wrong one.
unfoldable pub with_text {ℓ} : {A : Type ℓ} → List Any → (Answer → A) → Text → Text → (Text → A) → A
with_text [] answer missing wrong k = answer (invalid_params missing)
with_text (param ∷ rest) answer missing wrong k = elim (read_text [] param) [
  | none ↦ answer (invalid_params wrong)
  | some s ↦ k s
]

-- A tag that is "latest" unless the first parameter is a text.
unfoldable pub tag_param : List Any → Text
tag_param [] = txt "latest"
tag_param (param ∷ rest) = or_old (txt "latest") (read_text (txt "latest") param)

-- The second parameter as a flag, false unless it is one.
unfoldable pub flag_param : List Any → Bool
flag_param [] = false
flag_param (a ∷ []) = false
flag_param (a ∷ param ∷ rest) = or_old false (read_boolean false param)

-- evmReceiptLogs. A log is the object that it is written as.
unfoldable pub log_object : EvmLog → Text → Text → ℕ → ℕ → ℕ → Any
log_object log tx_hash block_hash block_number tx_index i = literal (
    (txt "address", text log.address)
    ∷ (txt "topics", items (slice text log.topics))
    ∷ (txt "data", text log.payload)
    ∷ (txt "blockNumber", text (hex_quantity (pos block_number)))
    ∷ (txt "transactionHash", text tx_hash)
    ∷ (txt "transactionIndex", text (hex_quantity (pos tx_index)))
    ∷ (txt "blockHash", text block_hash)
    ∷ (txt "logIndex", text (hex_quantity (pos i)))
    ∷ (txt "removed", boolean false)
    ∷ [])

unfoldable pub log_objects : List EvmLog → Text → Text → ℕ → ℕ → ℕ → List Any
log_objects [] tx_hash block_hash block_number tx_index i = []
log_objects (log ∷ rest) tx_hash block_hash block_number tx_index i =
    log_object log tx_hash block_hash block_number tx_index i
    ∷ log_objects rest tx_hash block_hash block_number tx_index (i + 1)

-- The addresses of a log filter: a text, or the texts of a list.
unfoldable pub addresses_in : Anys → Map Bool
addresses_in no_items = []
addresses_in (item (text s) rest) = insert (to_lower s) true (addresses_in rest)
addresses_in (item _ rest) = addresses_in rest

unfoldable pub address_filter : Any → Map Bool
address_filter (text s) = insert (to_lower s) true []
address_filter (items list) = addresses_in list
address_filter _ = []

-- The address of a log, as `log["address"].(string)` gives it.
unfoldable pub log_address : Any → Text
log_address (object fields) = field_text (txt "address") fields
log_address _ = []

-- The logs that pass a filter; one without addresses lets all pass.
unfoldable pub passing : Map Bool → List Any → List Any
passing filter [] = []
passing filter (log ∷ rest) =
    let below = passing filter rest in
    if ltb 0 (length filter) && not (at false (to_lower (log_address log)) filter)
    then below
    else log ∷ below

abbrev pub parse_error : Any
parse_error = literal (
    (txt "jsonrpc", text (txt "2.0"))
    ∷ (
      txt "error",
      literal
          ((txt "code", number (negsuc 32699)) ∷ (txt "message", text (txt "parse error")) ∷ []),
    )
    ∷ [])
