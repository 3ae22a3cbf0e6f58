-- ===== src/Pool/Cleanup/Blocked.antt =====
-- internal/pool/pool_observe.go: the cleanup and the accounts.
use llm_broker.Prelude.{ℕ, ◌≡◌, refl, ◌∙◌, List, [], ◌∷◌, Option, none, some, arith, values}
use llm_broker.Domain.{Account, QuotaBucket}
use llm_broker.Store.{Write}
use llm_broker.Pool.{Pool, Env, write, put_bucket, persist_bucket, publish, reload_or_keep}
use llm_broker.Pool.Buckets.{join_cooldown}
use llm_broker.Pool.Cleanup.{
  clear_expired, clear_each, from_unix, unix, compute_exhausted_cooldown, first_active_member,
  enforce_until, enforce_member, enforce_exhausted, enforce_each, cleanup,
}

write-accounts : (e : Env) (w : Write) (p : Pool) → (write e w p).accounts ≡ p.accounts
unfolding write
write-accounts e w p = ground arith

persist_bucket-accounts :
    (e : Env) (b : QuotaBucket) (p : Pool) → (persist_bucket e b p).accounts ≡ p.accounts
unfolding persist_bucket put_bucket
persist_bucket-accounts e b p = write-accounts e _ _

clear_expired-accounts :
    (e : Env) (b : QuotaBucket) (p : Pool) → (clear_expired e b p).accounts ≡ p.accounts
unfolding clear_expired publish
clear_expired-accounts e b p =
    ground
      (arith, persist_bucket-accounts e (record b { cooldown_until = none; updated_at = e.now }) p)

clear_each-accounts :
    (e : Env) (bs : List QuotaBucket) (p : Pool) → (clear_each e bs p).accounts ≡ p.accounts
unfolding clear_each
clear_each-accounts e [] p = refl
clear_each-accounts e (b ∷ bs) p =
    clear_each-accounts e bs (clear_expired e b p) ∙ clear_expired-accounts e b p

enforce_until-accounts :
    (e : Env) (b : QuotaBucket) (until : ℕ) (p : Pool)
    → (enforce_until e b until p).accounts ≡ p.accounts
unfolding enforce_until publish
enforce_until-accounts e b until p = ground (
  arith,
  persist_bucket-accounts e (record ((join_cooldown b (from_unix until)).0) { updated_at = e.now })
      p,
)

enforce_member-accounts :
    (e : Env) (b : QuotaBucket) (m : Option Account) (p : Pool)
    → (enforce_member e b m p).accounts ≡ p.accounts
unfolding enforce_member
enforce_member-accounts e b none p = refl
enforce_member-accounts e b (some a) p =
    ground (arith, enforce_until-accounts e b (compute_exhausted_cooldown p a (unix e.now)) p)

enforce_exhausted-accounts :
    (e : Env) (b : QuotaBucket) (p : Pool) → (enforce_exhausted e b p).accounts ≡ p.accounts
unfolding enforce_exhausted
enforce_exhausted-accounts e b p =
    ground
      (arith, enforce_member-accounts e b (first_active_member b.bucket_key (values p.accounts)) p)

enforce_each-accounts :
    (e : Env) (bs : List QuotaBucket) (p : Pool) → (enforce_each e bs p).accounts ≡ p.accounts
unfolding enforce_each
enforce_each-accounts e [] p = refl
enforce_each-accounts e (b ∷ bs) p =
    enforce_each-accounts e bs (enforce_exhausted e b p) ∙ enforce_exhausted-accounts e b p

-- A cleanup changes no account of the reloaded pool.
pub cleanup-accounts : (e : Env) (p : Pool) → (cleanup e p).accounts ≡ (reload_or_keep e p).accounts
unfolding cleanup
cleanup-accounts e p =
    let q : Pool = reload_or_keep e p in
    let r : Pool = clear_each e (values q.buckets) q in
    enforce_each-accounts e (values r.buckets) r ∙ clear_each-accounts e (values q.buckets) q
