-- ===== src/Start/Runs.antt =====
-- Which keepers were started and shut down when the process ends.
use evm_arbitrage.Base.{
  ℕ, zero, suc, ◌≡◌, ◌≢◌, refl, ap, ◌∙◌, ◌/◌, ◌%◌, true, false, ◌||◌, List, [], ◌∷◌, ◌++◌, arith,
  length, length-append, ◌==◌,
}
use evm_arbitrage.Base.Bytes.{Bytes, big_endian}
use evm_arbitrage.Start.{Config, Keeper, Ending, done, failed, missing_env, shut_all}

length-big_endian : (n a : ℕ) → length (big_endian n a) ≡ n
unfolding big_endian
length-big_endian zero a = refl
length-big_endian (suc n) a =
    length-append (big_endian n (a / 256)) (a % 256 ∷ [])
    ∙ omega (arith, length-big_endian n (a / 256))

-- The settings count as missing exactly when there is no private key, whatever the address is.
pub missing_env-private_key : (conf : Config) → missing_env conf ≡ (length conf.private_key == 0)
unfolding missing_env
missing_env-private_key conf =
    ap (λ n. n == 0 || length conf.private_key == 0) (length-big_endian 20 conf.from_address)

module _ {S : Type 0} where
  -- The keepers were started in turn, each once and without an error, from s to s'.
  pub data Started : List (Keeper S) → S → S → Type 0 where
    none_left : (s : S) → Started [] s s
    next :
        (k : Keeper S) (ks : List (Keeper S)) (s m s' : S)
        → k.init s ≡ (m, true)
        → Started ks m s'
        → Started (k ∷ ks) s s'

  -- What a run of the process did.
  pub data IsRun (conf : Config) (ks : List (Keeper S)) (serve : S → S) (s : S) (e : Ending S)
      : Type 0 where
    no_key : conf.private_key ≡ [] → e ≡ failed s → IsRun conf ks serve s e
    broken :
        conf.private_key ≢ []
        → (before : List (Keeper S)) (k : Keeper S) (after : List (Keeper S)) (m s' : S)
        → ks ≡ before ++ k ∷ after
        → Started before s m
        → k.init m ≡ (s', false)
        → e ≡ failed s'
        → IsRun conf ks serve s e
    complete :
        conf.private_key ≢ []
        → (s' : S) → Started ks s s'
        → e ≡ done (shut_all ks (serve s'))
        → IsRun conf ks serve s e

  -- The same for the loop of Inits.
  data IsStart (ks : List (Keeper S)) (s : S) (e : Ending S) : Type 0 where
    stuck :
        (before : List (Keeper S)) (k : Keeper S) (after : List (Keeper S)) (m s' : S)
        → ks ≡ before ++ k ∷ after
        → Started before s m
        → k.init m ≡ (s', false)
        → e ≡ failed s'
        → IsStart ks s e
    ready : (s' : S) → Started ks s s' → e ≡ done s' → IsStart ks s e
