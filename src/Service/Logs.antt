-- ===== src/Service/Logs.antt =====
-- The logs that eth_getLogs answers to a filter.
use pokoinpos.Prelude.{
  Bool, true, false, Option, none, some, List, [], ◌∷◌, ◌++◌, ◌≡◌, refl, ap, ◌∙◌, sym, arith, subst,
  length, ltb, not, ◌&&◌, ◌⊎◌, inl, inr, ◌↔◌, Bool-cases,
}
use pokoinpos.Prelude.Run.{Run, done, panic, ◌>>=◌, bind-done}
use pokoinpos.Text.{Text, to_lower, text_eq, text_eq_iff}
use pokoinpos.GoMap.{Map, at, lookup, lookup-insert}
use pokoinpos.Ledger.{EvmReceipt}
use pokoinpos.Explorer.{ExplorerTx}
use pokoinpos.Peer.{Peer, Wire}
use pokoinpos.Peer.Best.{best_evm_receipt}
use pokoinpos.Service.{Any, Anys, no_items, item, text, items}
use pokoinpos.Service.Rpc.{log_address, passing, log_objects, addresses_in, address_filter}
use pokoinpos.Service.Calls.{logs_of}

passing-++ :
    (filter : Map Bool) (xs ys : List Any)
    → passing filter (xs ++ ys) ≡ passing filter xs ++ passing filter ys
unfolding passing
passing-++ filter [] ys = refl
passing-++ filter (x ∷ xs) ys = ground (arith, passing-++ filter xs ys)

-- A filter without an address lets every log pass.
passing-none : (logs : List Any) → passing [] logs ≡ logs
unfolding passing
passing-none [] = refl
passing-none (x ∷ xs) = ground (arith, passing-none xs)

logs_step :
    (filter : Map Bool) (found : EvmReceipt → List Any) (receipt : Run (Option EvmReceipt))
    (below : Run (List Any))
    → ◌≡◌ {A = Run (List Any)}
        (do
          r ← receipt
          b ← (do all ← below; done (passing filter all))
          done (elim r [ none ↦ b | some f ↦ passing filter (found f) ++ b ]))
        (do
          all ← (do
            r ← receipt
            b ← below
            done (elim r [ none ↦ b | some f ↦ passing [] (found f) ++ b ]))
          done (passing filter all))
logs_step filter found panic below = refl
logs_step filter found (done r) panic = refl
logs_step filter found (done none) (done b) = refl
logs_step filter found (done (some f)) (done b) = ap done (
    sym
      (ap (λ x. passing filter (x ++ b)) (passing-none (found f)) ∙ passing-++ filter (found f) b))

-- Filtering the logs of each receipt where it is read is filtering all the logs of the entries.
logs_of-passing :
    (w : Wire) (filter : Map Bool) (entries : Map ExplorerTx) (p : Peer)
    → logs_of w filter entries p ≡ (do all ← logs_of w [] entries p; done (passing filter all))
unfolding logs_of
logs_of-passing w filter [] p = unfold passing in refl
logs_of-passing w filter ((key, tx) ∷ rest) p = rw (logs_of-passing w filter rest p) (
    logs_step filter
      (λ f. log_objects f.logs tx.hash tx.block_hash tx.block_number tx.transaction_index 0)
      (best_evm_receipt w tx.hash p) (logs_of w [] rest p))

-- The address of a log filter, as JSON gives it, names an address: it is that text up to capitals, or a
-- list that has such a text.
abbrev pub NamesIn : Anys → Text → Type 0
NamesIn no_items a = ⊥
NamesIn (item (text s) rest) a = (to_lower s ≡ to_lower a) ⊎ NamesIn rest a
NamesIn (item _ rest) a = NamesIn rest a

abbrev pub Names : Any → Text → Type 0
Names (text s) a = to_lower s ≡ to_lower a
Names (items list) a = NamesIn list a
Names _ a = ⊥

addresses_in-at :
    (list : Anys) (a : Text) → (at false (to_lower a) (addresses_in list) ≡ true) ↔ NamesIn list a
unfolding addresses_in lookup
addresses_in-at no_items a = ((λ e. cc), (λ h. absurd h))
addresses_in-at (item (text s) rest) a =
    let below = addresses_in-at rest a in
    let added = lookup-insert (to_lower s) (to_lower a) true (addresses_in rest) in
    elim (Bool-cases (text_eq (to_lower s) (to_lower a))) [
      | inl same ↦
          let e = (text_eq_iff (to_lower s) (to_lower a)).0 same in
          ((λ h. inl e), (λ h. ground (arith, added, same)))
      | inr other ↦ (
        (λ h. inr (below.0 (ground (arith, added, other, h)))),
        (λ h. elim h [
          | inl e ↦
              let same = (text_eq_iff (to_lower s) (to_lower a)).1 e in ground (arith, other, same)
          | inr named ↦ let e = below.1 named in ground (arith, added, other, e)
        ]),
      )
    ]
addresses_in-at (item _ rest) a = addresses_in-at rest a

-- The address filter has the addresses that are named, in lower case.
address_filter-at :
    (f : Any) (a : Text) → (at false (to_lower a) (address_filter f) ≡ true) ↔ Names f a
unfolding address_filter addresses_in lookup
address_filter-at (text s) a =
    let one = addresses_in-at (item (text s) no_items) a in
    ((λ h. elim (one.0 h) [ inl e ↦ e | inr nothing ↦ absurd nothing ]), (λ e. one.1 (inl e)))
address_filter-at (items list) a = addresses_in-at list a
address_filter-at _ a = ((λ e. let nothing : ⊥ = cc in absurd nothing), (λ h. absurd h))

not-empty : (key : Text) (m : Map Bool) → at false key m ≡ true → ltb 0 (length m) ≡ true
unfolding lookup
not-empty key [] e = cc
not-empty key (entry ∷ m) e = ground arith

-- A filter without entries names nothing.
address_filter-empty :
    (f : Any) → ltb 0 (length (address_filter f)) ≡ false → (a : Text) → ¬ Names f a
address_filter-empty f e a h =
    let full = not-empty (to_lower a) (address_filter f) ((address_filter-at f a).1 h) in cc

addresses_in-NamesIn :
    (list : Anys) → ltb 0 (length (addresses_in list)) ≡ true → (a : Text) × NamesIn list a
unfolding addresses_in
addresses_in-NamesIn no_items e = let nothing : ⊥ = ground (arith, e) in absurd nothing
addresses_in-NamesIn (item (text s) rest) e = (s, inl refl)
addresses_in-NamesIn (item _ rest) e = addresses_in-NamesIn rest e

address_filter-Names : (f : Any) → ltb 0 (length (address_filter f)) ≡ true → (a : Text) × Names f a
unfolding address_filter
address_filter-Names (text s) e = (s, refl)
address_filter-Names (items list) e = addresses_in-NamesIn list e
address_filter-Names _ e = let nothing : ⊥ = ground (arith, e) in absurd nothing

-- A log passes a filter that names no address, or its own.
abbrev pub Passes : Any → Any → Type 0
Passes f log = ((a : Text) → ¬ Names f a) ⊎ Names f (log_address log)

-- The test of the loop is that.
is_refused : Any → Any → Bool
is_refused f log =
    ltb 0 (length (address_filter f))
    && not (at false (to_lower (log_address log)) (address_filter f))

refused-Passes : (f log : Any) → is_refused f log ≡ true → ¬ Passes f log
unfolding is_refused
refused-Passes f log e h =
    let full : ltb 0 (length (address_filter f)) ≡ true = ground (arith, e) in
    let out : at false (to_lower (log_address log)) (address_filter f) ≡ false =
      ground (arith, e) in
    elim h [
      | inl none_named ↦ let (a, named) = address_filter-Names f full in none_named a named
      | inr named ↦ let in_it = (address_filter-at f (log_address log)).1 named in cc
    ]

kept-Passes : (f log : Any) → is_refused f log ≡ false → Passes f log
unfolding is_refused
kept-Passes f log e = elim (Bool-cases (ltb 0 (length (address_filter f)))) [
  | inl full ↦ inr ((address_filter-at f (log_address log)).0 (ground (arith, e, full)))
  | inr empty ↦ inl (address_filter-empty f empty)
]

-- A log is in a list of logs.
abbrev pub Among : Any → List Any → Type 0
Among log [] = ⊥
Among log (x ∷ logs) = (x ≡ log) ⊎ Among log logs

passing-Among :
    (f log : Any) (logs : List Any)
    → Among log (passing (address_filter f) logs) ↔ (Among log logs × Passes f log)
unfolding passing is_refused
passing-Among f log [] = ((λ h. absurd h), (λ h. absurd h.0))
passing-Among f log (x ∷ logs) =
    let below = passing-Among f log logs in
    elim (Bool-cases (is_refused f x)) [
      | inl out ↦ rw out (
        (λ h. let (m, passes) = below.0 h in (inr m, passes)),
        (λ (m, passes). elim m [
          | inl same ↦ absurd (refused-Passes f x out (subst (λ l. Passes f l) (sym same) passes))
          | inr m ↦ below.1 (m, passes)
        ]),
      )
      | inr kept ↦ rw kept (
        (λ h. elim h [
          | inl same ↦ (inl same, subst (λ l. Passes f l) same (kept-Passes f x kept))
          | inr m ↦ let (m, passes) = below.0 m in (inr m, passes)
        ]),
        (λ (m, passes). elim m [ inl same ↦ inl same | inr m ↦ inr (below.1 (m, passes)) ]),
      )
    ]

-- If the entries can be read, eth_getLogs with an address filter answers exactly the logs of an answer
-- without one that pass: all of them if the filter, a text or a list, names no address, and otherwise
-- those whose address is one of the named ones up to capitals. This holds of entries in any order.
pub logs_of-Among :
    (w : Wire) (f log : Any) (entries : Map ExplorerTx) (p : Peer) (all : List Any)
    → logs_of w [] entries p ≡ done all
    → (found : List Any) × (logs_of w (address_filter f) entries p ≡ done found)
      × (Among log found ↔ (Among log all × Passes f log))
logs_of-Among w f log entries p all e = (
  passing (address_filter f) all,
  logs_of-passing w (address_filter f) entries p ∙ bind-done _ e refl,
  passing-Among f log all,
)
