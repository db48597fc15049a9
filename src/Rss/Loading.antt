-- ===== src/Rss/Loading.antt =====
-- `load_rss_config` and what it makes of `predict_queue`.
use mathlib.Core.Bool.{false≢true}
use native.Mathlib.Decide.{dec_lt}
use native.Mathlib.Nat.{one-le-pow, mod-lt}
use miniosv_apps.Prelude.{
  ℕ, zero, suc, ◌+◌, ◌%◌, ◌^◌, ◌≤◌, ◌<◌, ◌≡◌, ◌≢◌, refl, sym, ap, ◌∙◌, ◌↔◌, true, false, List, [],
  ◌∷◌, ◌++◌, arith, leb, ◌==◌, length, get_or, take, drop, Bytes,
}
use miniosv_apps.Prelude.Int.{ℤ, pos, negsuc, pos_part, leb_ℤ}
use miniosv_apps.Prelude.Bits.{and-mask}
use miniosv_apps.Prelude.PowerOfTwo.{power_of_and, and_of_power}
use miniosv_apps.Rss.{
  RssState, ShimReply, copy_prefix, load_reta, load_rss_config, toeplitz, predict_queue,
}

take-take_append {ℓ} :
    {A : Type ℓ} (n : ℕ) (src rest : List A)
    → n ≤ length src
    → take n (take n src ++ rest) ≡ take n src
take-take_append zero src rest h = refl
take-take_append (suc n) [] rest h = absurd (omega arith)
take-take_append (suc n) (x ∷ src) rest h = ap (◌∷◌ x) (take-take_append n src rest (omega arith))

get_or-take_append {ℓ} :
    {A : Type ℓ} (n i : ℕ) (src rest : List A) (d : A)
    → n ≤ length src
    → i < n
    → get_or (take n src ++ rest) i d ≡ get_or src i d
get_or-take_append zero i src rest d h k = absurd (omega arith)
get_or-take_append (suc n) i [] rest d h k = absurd (omega arith)
get_or-take_append (suc n) zero (x ∷ src) rest d h k = refl
get_or-take_append (suc n) (suc i) (x ∷ src) rest d h k =
    get_or-take_append n i src rest d (omega arith) (omega arith)

-- The code and the array of a call agree: as many entries as the code says were filled.
abbrev pub IsFilled : ShimReply → Type 0
IsFilled r = pos_part r.rc ≤ length r.filled

-- The code counts a power of two.
abbrev pub IsPower : ShimReply → ℕ → Type 0
IsPower r k = r.rc ≡ pos (2 ^ k)

reta_accepts :
    (st : RssState) (rc : ℤ) (filled : List ℕ)
    → ((load_reta st (record { rc = rc; filled = filled })).1 ≡ true)
      ↔ ((k : ℕ) × (rc ≡ pos (2 ^ k)))
unfolding load_reta
reta_accepts st (negsuc n) filled = (λ h. absurd (ground arith), λ (k, e). cc)
reta_accepts st (pos n) filled = (accepted, given)
  where
    accepted :
        (load_reta st (record { rc = pos n; filled = filled })).1 ≡ true
        → (k : ℕ) × (pos n ≡ pos (2 ^ k))
    accepted h = let (k, e) = power_of_and n (ground arith) (ground arith) in (k, ap pos e)

    given :
        (k : ℕ) × (pos n ≡ pos (2 ^ k))
        → (load_reta st (record { rc = pos n; filled = filled })).1 ≡ true
    given (k, e) =
        let e' : n ≡ 2 ^ k = ap pos_part e in rw e' (ground (arith, and_of_power k, one-le-pow k 2))

positive : (z : ℤ) → 0 < pos_part z → leb_ℤ z (pos 0) ≡ false
positive (pos n) h = ground arith
positive (negsuc n) h = absurd (omega arith)

not_positive : (z : ℤ) → pos_part z ≡ 0 → leb_ℤ z (pos 0) ≡ true
not_positive (pos n) h = ground arith
not_positive (negsuc n) h = ground arith

-- The configuration behind the key.
abbrev with_key : RssState → ShimReply → RssState
with_key st key = record st {
  key = copy_prefix (pos_part key.rc) key.filled st.key;
  key_len = pos_part key.rc;
}

module _ (st : RssState) (n_queues : ℕ) (key reta : ShimReply) (several : n_queues ≢ 1) where
  load_rss_config-load_reta :
      0 < pos_part key.rc → load_rss_config st n_queues key reta ≡ load_reta (with_key st key) reta
  unfolding load_rss_config
  load_rss_config-load_reta h =
      let e : (n_queues == 1) ≡ false = ground arith in rw (e, positive key.rc h)

  load_rss_config_no_key : pos_part key.rc ≡ 0 → load_rss_config st n_queues key reta ≡ (st, false)
  unfolding load_rss_config
  load_rss_config_no_key h =
      let e : (n_queues == 1) ≡ false = ground arith in rw (e, not_positive key.rc h)

  -- With several queues the configuration is accepted exactly when both codes are positive and the
  -- size of the table is a power of two.
  pub load_rss_config_accepts :
      ((load_rss_config st n_queues key reta).1 ≡ true)
      ↔ ((0 < pos_part key.rc) × ((k : ℕ) × IsPower reta k))
  load_rss_config_accepts =
      let (to, from) = reta_accepts (with_key st key) reta.rc reta.filled in
      (
        λ h. elim (dec_lt 0 (pos_part key.rc)) [
          | yes p ↦ (p, to (ap (λ t. t.1) (sym (load_rss_config-load_reta p)) ∙ h))
          | no n ↦
              absurd (false≢true (ap (λ t. t.1) (sym (load_rss_config_no_key (omega arith))) ∙ h))
        ],
        λ (p, q). ap (λ t. t.1) (load_rss_config-load_reta p) ∙ from q,
      )

predict_queue-power :
    (st : RssState) (k : ℕ) (tuple : Bytes)
    → st.single_queue ≡ false
    → 0 < st.key_len
    → st.reta_len ≡ 2 ^ k
    → predict_queue st tuple ≡ get_or st.reta (toeplitz (take st.key_len st.key) tuple % 2 ^ k) 0
unfolding predict_queue
predict_queue-power st k tuple single key_read table =
    let has_key : (st.key_len == 0) ≡ false = ground arith in
    let has_table : (st.reta_len == 0) ≡ false = ground (arith, one-le-pow k 2) in
    rw (single, has_key, has_table, table, and-mask k (toeplitz (take st.key_len st.key) tuple))

load_reta-power :
    (st : RssState) (k : ℕ) (filled : List ℕ)
    → load_reta st (record { rc = pos (2 ^ k); filled = filled })
      ≡ (record st { reta = copy_prefix (2 ^ k) filled st.reta; reta_len = 2 ^ k }, true)
unfolding load_reta
load_reta-power st k filled =
    let filled_some : leb (2 ^ k + 0) (0 + 0) ≡ false = ground (arith, one-le-pow k 2) in
    rw (filled_some, and_of_power k)

-- What an accepted configuration predicts: the entry of the device's own table at the hash, under
-- the device's own key, modulo the size of the table, an index inside the table.
pub predict_queue-load_rss_config :
    (st : RssState) (n_queues : ℕ) (key reta : ShimReply) (tuple : Bytes)
    → n_queues ≢ 1
    → st.single_queue ≡ false
    → IsFilled key
    → IsFilled reta
    → (load_rss_config st n_queues key reta).1 ≡ true
    → let h = toeplitz (take (pos_part key.rc) key.filled) tuple in
      (predict_queue (load_rss_config st n_queues key reta).0 tuple
        ≡ get_or reta.filled (h % pos_part reta.rc) 0)
      × (h % pos_part reta.rc < length reta.filled)
predict_queue-load_rss_config st n_queues key reta tuple several single fk fr ok =
    let (kp, (k, power)) = (load_rss_config_accepts st n_queues key reta several).0 ok in
    let n = pos_part key.rc in
    let size : pos_part reta.rc ≡ 2 ^ k = ap pos_part power in
    let loaded : RssState = record (with_key st key) {
      reta = copy_prefix (2 ^ k) reta.filled st.reta;
      reta_len = 2 ^ k;
    } in
    let h = toeplitz (take n key.filled) tuple in
    let result : load_rss_config st n_queues key reta ≡ (loaded, true) =
      load_rss_config-load_reta st n_queues key reta several kp
      ∙ ap (λ z. load_reta (with_key st key) (record { rc = z; filled = reta.filled })) power
      ∙ load_reta-power (with_key st key) k reta.filled in
    let inside : h % 2 ^ k < 2 ^ k = mod-lt h (one-le-pow k 2 (omega arith)) in
    let own_key =
      ap (λ t. get_or loaded.reta (toeplitz t tuple % 2 ^ k) 0)
        (take-take_append n key.filled (drop n st.key) fk) in
    let own_table =
      get_or-take_append (2 ^ k) (h % 2 ^ k) reta.filled (drop (2 ^ k) st.reta) 0
        (omega (arith, size)) inside in
    (
      ap (λ t. predict_queue t.0 tuple) result
          ∙ predict_queue-power loaded k tuple single kp refl
          ∙ own_key
          ∙ own_table
          ∙ ap (λ t. get_or reta.filled (h % t) 0) (sym size),
      omega (arith, size, inside, ap (λ (t : ℕ). h % t) size),
    )
