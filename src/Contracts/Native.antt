-- ===== src/Contracts/Native.antt =====
-- `native_replica_key` of contracts.py: the identity of a retained native replica.
use Prim.Native.Nat.{◌/◌, ◌%◌}
use Prim.Native.Char.{Char, code}
use verl_multi_task.Common.{
  ℕ, zero, suc, ◌+◌, ◌-◌, ◌*◌, ◌<◌, String, ◌≡◌, refl, ap, sym, ◌∙◌, ℤ, pos, negsuc, nat_key,
  if◌then◌else◌, Bool-cases, inl, inr, ltb, Result, ok, err, arith,
}
use verl_multi_task.Contracts.{ReplicaKey, ContractError, negative_replica_rank, replica_key}

unfoldable pub digit : ℕ → Char
digit zero = "0"
digit (suc zero) = "1"
digit (suc (suc zero)) = "2"
digit (suc (suc (suc zero))) = "3"
digit (suc (suc (suc (suc zero)))) = "4"
digit (suc (suc (suc (suc (suc zero))))) = "5"
digit (suc (suc (suc (suc (suc (suc zero)))))) = "6"
digit (suc (suc (suc (suc (suc (suc (suc zero))))))) = "7"
digit (suc (suc (suc (suc (suc (suc (suc (suc zero)))))))) = "8"
digit _ = "9"

-- `str` of a number, before the text `rest`; the fuel bounds the number of digits
unfoldable pub decimal : ℕ → ℕ → String → String
decimal zero n rest = rest
decimal (suc fuel) n rest =
    let more = decimal fuel (n / 10) (String.◌∷◌ (digit (n % 10)) rest) in
    if ltb n 10 then String.◌∷◌ (digit n) rest else more

-- "native-" before a text
native_text : String → String
native_text s = String.◌∷◌ "n" (
    String.◌∷◌ "a"
      (String.◌∷◌ "t" (String.◌∷◌ "i" (String.◌∷◌ "v" (String.◌∷◌ "e" (String.◌∷◌ "-" s))))))

unfoldable pub native_replica_key : String → ℤ → ℤ → Result ContractError ReplicaKey
unfolding decimal native_text digit
native_replica_key task_session (negsuc _) runtime_epoch = err negative_replica_rank
native_replica_key task_session (pos rank) runtime_epoch =
    replica_key task_session (native_text (decimal (suc rank) rank String.[])) runtime_epoch

-- The number that a text of digits stands for, behind the digits already read.
value : ℕ → String → ℕ
value n String.[] = n
value n (String.◌∷◌ c s) = value (n * 10 + (code c - 48)) s

digit_value : (d : ℕ) → d < 10 → code (digit d) - 48 ≡ d
unfolding digit
digit_value zero h = refl
digit_value (suc zero) h = refl
digit_value (suc (suc zero)) h = refl
digit_value (suc (suc (suc zero))) h = refl
digit_value (suc (suc (suc (suc zero)))) h = refl
digit_value (suc (suc (suc (suc (suc zero))))) h = refl
digit_value (suc (suc (suc (suc (suc (suc zero)))))) h = refl
digit_value (suc (suc (suc (suc (suc (suc (suc zero))))))) h = refl
digit_value (suc (suc (suc (suc (suc (suc (suc (suc zero)))))))) h = refl
digit_value (suc (suc (suc (suc (suc (suc (suc (suc (suc zero))))))))) h = refl
digit_value (suc (suc (suc (suc (suc (suc (suc (suc (suc (suc d)))))))))) h = absurd (omega arith)

value-decimal :
    (fuel n : ℕ) (rest : String) → n < fuel → value 0 (decimal fuel n rest) ≡ value n rest
unfolding value decimal
value-decimal zero n rest h = absurd (omega arith)
value-decimal (suc fuel) n rest h = elim (Bool-cases (ltb n 10)) [
  | inl small ↦ rw small (ap (λ d. value d rest) (omega (arith, digit_value n (ground arith))))
  | inr big ↦ rw big (
      value-decimal fuel (n / 10) (String.◌∷◌ (digit (n % 10)) rest) (ground arith)
      ∙ ap (λ d. value d rest) (omega (arith, digit_value (n % 10) (omega arith))))
]

strip : String → String
strip
      (String.◌∷◌ _ (
        String.◌∷◌ _
          (String.◌∷◌ _ (String.◌∷◌ _ (String.◌∷◌ _ (String.◌∷◌ _ (String.◌∷◌ _ s))))))) =
    s
strip s = s

replica_id-replica_key :
    (session id : String) (epoch : ℤ) (key : ReplicaKey)
    → replica_key session id epoch ≡ ok key
    → key.replica_id ≡ id
unfolding replica_key
replica_id-replica_key session id (pos n) key h = ground arith
replica_id-replica_key session id (negsuc n) key h = ground arith

-- The rank can be read back from the identity.
rank_of_replica_id :
    (session : String) (rank : ℕ) (epoch : ℤ) (key : ReplicaKey)
    → native_replica_key session (pos rank) epoch ≡ ok key
    → value 0 (strip key.replica_id) ≡ rank
unfolding native_replica_key strip value
rank_of_replica_id session rank epoch key h =
    ap (λ s. value 0 (strip s))
      (replica_id-replica_key session (native_text (decimal (suc rank) rank String.[])) epoch key h)
    ∙ value-decimal (suc rank) rank String.[] (omega arith)

-- Two native keys that are equal were built with the same rank, whatever the sessions and
-- epochs.
pub native_replica_key-injective :
    (session session' : String) (rank rank' : ℕ) (epoch epoch' : ℤ) (key : ReplicaKey)
    → native_replica_key session (pos rank) epoch ≡ ok key
    → native_replica_key session' (pos rank') epoch' ≡ ok key
    → rank ≡ rank'
native_replica_key-injective session session' rank rank' epoch epoch' key h h' =
    sym (rank_of_replica_id session rank epoch key h)
    ∙ rank_of_replica_id session' rank' epoch' key h'
