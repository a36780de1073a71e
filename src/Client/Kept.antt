-- ===== src/Client/Kept.antt =====
-- Which client `GetETHClient` keeps for a node.
use evm_arbitrage.Base.{
  ℕ, ◌≡◌, refl, ap, ◌∙◌, Option, none, some, List, [], ◌∷◌, arith, inl, inr, Option-cases,
  if◌then◌else◌,
}
use evm_arbitrage.Base.Bytes.{Bytes, beq_bytes, beq_bytes_iff, bytes_eq}
use evm_arbitrage.Base.GoMap.{lookup, insert, lookup-insert}
use evm_arbitrage.Client.{EthClient, get_eth_client}

-- A call: what dialling would give, the node and the address.
abbrev pub Call : Type 0 → Type 0
Call Conn = Option Conn × Bytes × ℕ

module _ {Conn : Type 0} where
  -- The clients after the calls, in turn.
  unfoldable pub get_all :
      List (Call Conn) → List (Bytes × EthClient Conn) → List (Bytes × EthClient Conn)
  get_all [] clients = clients
  get_all ((dialled, node, address) ∷ calls) clients =
      get_all calls (get_eth_client dialled node address clients).1

  -- The client of a call that asks for the node and whose dial succeeds.
  abbrev pub made : Bytes → Call Conn → Option (EthClient Conn)
  made node (none, n, address) = none
  made node (some conn, n, address) =
      if beq_bytes n node
      then some (record { client = conn; multicall_address = address })
      else none

  abbrev pub first_some :
      Option (EthClient Conn) → Option (EthClient Conn) → Option (EthClient Conn)
  first_some (some cli) o = some cli
  first_some none o = o

  -- The client of the first such call.
  abbrev pub first_made : Bytes → List (Call Conn) → Option (EthClient Conn)
  first_made node [] = none
  first_made node (call ∷ calls) = first_some (made node call) (first_made node calls)

  module _ (n : Bytes) (address : ℕ) (clients : List (Bytes × EthClient Conn)) where
    get_eth_client_known :
        (dialled : Option Conn) (cli : EthClient Conn)
        → lookup n clients ≡ some cli
        → get_eth_client dialled n address clients ≡ (some cli, clients)
    unfolding get_eth_client
    get_eth_client_known dialled cli e = rw (e, get_eth_client) refl

    get_eth_client_refused :
        lookup n clients ≡ none
        → get_eth_client {Conn = Conn} none n address clients ≡ (none, clients)
    unfolding get_eth_client
    get_eth_client_refused e = rw (e, get_eth_client) refl

    get_eth_client_dialled :
        (conn : Conn)
        → lookup n clients ≡ none
        → (get_eth_client (some conn) n address clients).1
          ≡ insert n (record { client = conn; multicall_address = address }) clients
    unfolding get_eth_client
    get_eth_client_dialled conn e = rw (e, get_eth_client) refl

  first_some-none : (o : Option (EthClient Conn)) → o ≡ first_some o none
  first_some-none none = refl
  first_some-none (some cli) = refl

  get_eth_client-lookup :
      (dialled : Option Conn) (n node : Bytes) (address : ℕ)
      (clients : List (Bytes × EthClient Conn))
      → lookup node (get_eth_client dialled n address clients).1
        ≡ first_some (lookup node clients) (made node (dialled, n, address))
  get_eth_client-lookup none n node address clients = elim (Option-cases (lookup n clients)) [
    | inl missing ↦
        rw (get_eth_client_refused n address clients missing)
          (first_some-none (lookup node clients))
    | inr (cli, kept) ↦
        rw (get_eth_client_known n address clients none cli kept)
          (first_some-none (lookup node clients))
  ]
  get_eth_client-lookup (some conn) n node address clients =
      elim (Option-cases (lookup n clients)) [
        | inl missing ↦ rw (get_eth_client_dialled n address clients conn missing) (
            lookup-insert n node (record { client = conn; multicall_address = address }) clients
            ∙ ground (arith, beq_bytes_iff n node))
        | inr (cli, kept) ↦
            rw (get_eth_client_known n address clients (some conn) cli kept)
              (ground (arith, beq_bytes_iff n node))
      ]

  first_some_assoc :
      (a b c : Option (EthClient Conn))
      → first_some (first_some a b) c ≡ first_some a (first_some b c)
  first_some_assoc none b c = refl
  first_some_assoc (some cli) b c = refl

  -- After any calls of `GetETHClient`, the client of a node is the one that was there before, or else
  -- that of the first call for the node whose dial succeeded, with the address of that call: no
  -- later call changes it, whatever address it asks for.
  pub get_all-first_made :
      (calls : List (Call Conn)) (node : Bytes) (clients : List (Bytes × EthClient Conn))
      → lookup node (get_all calls clients)
        ≡ first_some (lookup node clients) (first_made node calls)
  unfolding get_all
  get_all-first_made [] node clients = first_some-none (lookup node clients)
  get_all-first_made ((dialled, n, address) ∷ calls) node clients =
      get_all-first_made calls node (get_eth_client dialled n address clients).1
      ∙ (ap (λ o. first_some o (first_made node calls))
            (get_eth_client-lookup dialled n node address clients)
          ∙ first_some_assoc (lookup node clients) (made node (dialled, n, address))
              (first_made node calls))
