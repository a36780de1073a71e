-- ===== src/Client/Replies.antt =====
-- What `MultiViewCall` returns, and under which ids.
use mathlib.Core.List.{map}
use evm_arbitrage.Base.{
  ℕ, suc, ◌+◌, ◌≡◌, ◌≢◌, ◌++◌, refl, sym, ap, ◌∙◌, subst, true, false, Option, none, some, List, [],
  ◌∷◌, arith, inl, inr, Bool-cases, Option-cases, length, get_elem?, ◌==◌, ==_iff, if◌then◌else◌,
}
use evm_arbitrage.Base.Bytes.{Bytes, beq_bytes, bytes_eq}
use evm_arbitrage.Base.Fallible.{>>=-eq-some}
use evm_arbitrage.Base.GoMap.{lookup, insert, lookup-insert}
use evm_arbitrage.Base.Outcome.{Outcome, ok}
use evm_arbitrage.Base.Slice.{at}
use evm_arbitrage.Protocol.Calls.{ViewCall, CallResult}
use evm_arbitrage.Client.{
  EthClient, Multicall, new_view_multicall2_calls, first_value, ask_contract, name_results,
  name_all, multi_view_call,
}

abbrev pub or_else : Option CallResult → Option CallResult → Option CallResult
or_else (some r) o = some r
or_else none o = o

-- The result at the place of the last call of an id.
abbrev pub last_named : Bytes → List ViewCall → List CallResult → Option CallResult
last_named id [] results = none
last_named id (call ∷ calls) [] = none
last_named id (call ∷ calls) (r ∷ rs) =
    or_else (last_named id calls rs) (if beq_bytes call.id id then some r else none)

or_else_assoc : (a b c : Option CallResult) → or_else (or_else a b) c ≡ or_else a (or_else b c)
or_else_assoc none b c = refl
or_else_assoc (some r) b c = refl

module _ (all : List ViewCall) where
  name_results-last_named :
      (calls : List ViewCall) (i : ℕ) (results : List CallResult) (ret : List (Bytes × CallResult))
      → ((k : ℕ) → get_elem? all (i + k) ≡ get_elem? calls k)
      → length results ≡ length calls
      → (ret' : List (Bytes × CallResult)) × (name_results all i results ret ≡ ok ret')
        × ((id : Bytes) → lookup id ret' ≡ or_else (last_named id calls results) (lookup id ret))
  unfolding name_results at
  name_results-last_named [] i [] ret s e = (ret, refl, λ id. refl)
  name_results-last_named [] i (r ∷ rs) ret s e = absurd (omega arith)
  name_results-last_named (call ∷ calls) i [] ret s e = absurd (omega arith)
  name_results-last_named (call ∷ calls) i (r ∷ rs) ret s e =
      let here_i : get_elem? all i ≡ some call =
        subst (λ n. get_elem? all n ≡ some call) (omega arith) (s 0) in
      let next : (k : ℕ) → get_elem? all (i + 1 + k) ≡ get_elem? calls k =
        λ k. subst (λ n. get_elem? all n ≡ get_elem? calls k) (omega arith) (s (suc k)) in
      let (ret', run, found) =
        name_results-last_named calls (i + 1) rs (insert call.id r ret) next (omega arith) in
      (
        ret',
        rw here_i run,
        λ id.
            found id
            ∙ (ap (or_else (last_named id calls rs)) (inserted call r ret id)
                ∙ sym (
                    or_else_assoc (last_named id calls rs)
                      (if beq_bytes call.id id then some r else none) (lookup id ret))),
      )
    where
      inserted :
          (call : ViewCall) (r : CallResult) (ret : List (Bytes × CallResult)) (id : Bytes)
          → lookup id (insert call.id r ret)
            ≡ or_else (if beq_bytes call.id id then some r else none) (lookup id ret)
      inserted call r ret id = elim (Bool-cases (beq_bytes call.id id)) [
        | inl same ↦ lookup-insert call.id id r ret ∙ rw same refl
        | inr other ↦ lookup-insert call.id id r ret ∙ rw other refl
      ]

-- The contract at the address was asked for all the calls, each at its own target with its own data, and
-- the results are the first value of its answer.
pub data Answered (m : Multicall) (multicall_address : ℕ) (calls : List ViewCall)
    (results : List CallResult) : Type 0 where
  answer :
      (input body : Bytes) (rest : List (Option (List CallResult)))
      → m.pack (map (λ call. (call.to, call.call_data)) calls) ≡ some input
      → m.call_contract multicall_address (m.id ++ input) ≡ some body
      → m.unpack body ≡ some (some results ∷ rest)
      → Answered m multicall_address calls results

-- The ways for `MultiViewCall` to return; no two fit the same calls and answers.
pub data IsReply (m : Multicall) (multicall_address : ℕ) (calls : List ViewCall)
    (r : Outcome (Option (List (Bytes × CallResult)))) : Type 0 where
  empty : calls ≡ [] → r ≡ ok (some []) → IsReply m multicall_address calls r
  no_answer :
      calls ≢ []
      → ((results : List CallResult) → Answered m multicall_address calls results → ⊥)
      → r ≡ ok none
      → IsReply m multicall_address calls r
  too_few_or_many :
      calls ≢ []
      → (results : List CallResult) → Answered m multicall_address calls results
      → length results ≢ length calls
      → r ≡ ok none
      → IsReply m multicall_address calls r
  answered :
      calls ≢ []
      → (results : List CallResult) (ret : List (Bytes × CallResult))
      → Answered m multicall_address calls results
      → length results ≡ length calls
      → r ≡ ok (some ret)
      → ((id : Bytes) → lookup id ret ≡ last_named id calls results)
      → IsReply m multicall_address calls r

new_view_multicall2_calls-map :
    (calls : List ViewCall)
    → new_view_multicall2_calls calls ≡ map (λ call. (call.to, call.call_data)) calls
unfolding new_view_multicall2_calls
new_view_multicall2_calls-map [] = refl
new_view_multicall2_calls-map (call ∷ calls) =
    ap (λ l. (call.to, call.call_data) ∷ l) (new_view_multicall2_calls-map calls)

module _ (m : Multicall) (multicall_address : ℕ) (calls : List ViewCall)
    (results : List CallResult) where
  first_value-eq-some :
      (values : List (Option (List CallResult)))
      → first_value values ≡ some results
      → (rest : List (Option (List CallResult))) × (values ≡ some results ∷ rest)
  first_value-eq-some [] h = absurd (cc)
  first_value-eq-some (v ∷ values) h = (values, ap (λ x. x ∷ values) h)

  ask_contract-Answered :
      ask_contract m multicall_address calls ≡ some results
      → Answered m multicall_address calls results
  unfolding ask_contract
  ask_contract-Answered h =
      let (input, packed, k) = >>=-eq-some (m.pack (new_view_multicall2_calls calls)) _ h in
      let (body, called, k') =
        >>=-eq-some (m.call_contract multicall_address (m.id ++ input)) _ k in
      let (values, unpacked, e) = >>=-eq-some (m.unpack body) _ k' in
      let (rest, first) = first_value-eq-some values e in
      Answered.answer input body rest
        (subst (λ l. m.pack l ≡ some input) (new_view_multicall2_calls-map calls) packed) called
        (unpacked ∙ ap some first)

  Answered-ask_contract :
      Answered m multicall_address calls results
      → ask_contract m multicall_address calls ≡ some results
  unfolding ask_contract
  Answered-ask_contract (Answered.answer input body rest packed called unpacked) =
      let packed' : m.pack (new_view_multicall2_calls calls) ≡ some input =
        subst (λ l. m.pack l ≡ some input) (sym (new_view_multicall2_calls-map calls)) packed in
      rw packed' (rw called (rw unpacked refl))

module _ (calls : List ViewCall) (results : List CallResult) where
  name_all_named :
      (ret : List (Bytes × CallResult))
      → (length results == length calls) ≡ true
      → name_results calls 0 results [] ≡ ok ret
      → name_all calls (some results) ≡ ok (some ret)
  unfolding name_all
  name_all_named ret same run = rw (same, name_all) (rw run refl)

  name_all_other :
      (length results == length calls) ≡ false → name_all calls (some results) ≡ ok none
  unfolding name_all
  name_all_other other = rw (other, name_all) refl

or_else-none : (o : Option CallResult) → or_else o none ≡ o
or_else-none none = refl
or_else-none (some r) = refl

name_all-IsReply :
    (m : Multicall) (multicall_address : ℕ) (calls : List ViewCall)
    → calls ≢ []
    → IsReply m multicall_address calls (name_all calls (ask_contract m multicall_address calls))
unfolding name_all lookup
name_all-IsReply m a calls full = elim (Option-cases (ask_contract m a calls)) [
  | inl silent ↦
      IsReply.no_answer full
        (λ results given. no_results silent results (Answered-ask_contract m a calls results given))
        (rw silent refl)
  | inr (results, spoke) ↦ elim (Bool-cases (length results == length calls)) [
    | inl same ↦
        let n : length results ≡ length calls = (==_iff (length results) (length calls)).0 same in
        let (ret, run, found) =
          name_results-last_named calls calls 0 results [] (λ k. ap (get_elem? calls) (omega arith))
            n in
        IsReply.answered full results ret (ask_contract-Answered m a calls results spoke) n
          (rw spoke (name_all_named calls results ret same run))
          (λ id. found id ∙ or_else-none (last_named id calls results))
    | inr other ↦
        IsReply.too_few_or_many full results (ask_contract-Answered m a calls results spoke)
          (λ e. absurd (differ results other e)) (rw spoke (name_all_other calls results other))
  ]
]
  where
    no_results :
        ask_contract m a calls ≡ none
        → (results : List CallResult) → ask_contract m a calls ≡ some results
        → ⊥
    no_results silent results spoke = cc

    differ :
        (results : List CallResult)
        → (length results == length calls) ≡ false
        → length results ≡ length calls
        → ⊥
    differ results other e = ground (arith, ==_iff (length results) (length calls))

-- `MultiViewCall` never panics. Without calls it returns no results, whatever the contract would answer.
-- With calls it packs the target and the data of each and asks the multicall contract; it returns an
-- error exactly when the packing, the call or the unpacking fails, or the first value of the answer is
-- not a list of as many results as there are calls; and otherwise the results under the ids of the
-- calls, each id having the result at the place of its last call, and no other id any.
pub multi_view_call-IsReply :
    {Conn : Type 0} (m : Multicall) (e : EthClient Conn) (calls : List ViewCall)
    → IsReply m e.multicall_address calls (multi_view_call m e calls)
unfolding multi_view_call
multi_view_call-IsReply m e [] = IsReply.empty refl refl
multi_view_call-IsReply m e (call ∷ calls) =
    name_all-IsReply m e.multicall_address (call ∷ calls) (λ h. cc)
