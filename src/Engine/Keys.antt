-- ===== src/Engine/Keys.antt =====
-- engine_penalty.go and engine_reputation.go: the keys in Redis never collide.
use guard_go.Base.{◌≡◌, refl, ap, [], ◌∷◌, ◌++◌, arith}
use guard_go.Text.{Bytes, codes}
use guard_go.Engine.Penalty.{blacklist_key, counter_key, penalty_key}

-- The keys of the background pipeline.
unfoldable pub attempts_key : Bytes → Bytes → Bytes
attempts_key prefix ip = prefix ++ (codes ":ban_attempts:" ++ ip)

unfoldable pub threat_key : Bytes → Bytes → Bytes
threat_key prefix ip = prefix ++ (codes ":threat:" ++ ip)

unfoldable pub score_key : Bytes → Bytes
score_key prefix = prefix ++ codes ":rep"

abbrev rest_of : Bytes → Bytes
rest_of [] = []
rest_of (b ∷ s) = s

append_cancel : (p s t : Bytes) → p ++ s ≡ p ++ t → s ≡ t
append_cancel [] s t e = e
append_cancel (b ∷ p) s t e = append_cancel p s t (ap rest_of e)

-- What a key is for: the blacklist, the counter of requests, the penalty box, the counter of bans, the
-- counter of threats.
pub data Purpose : Type 0 where
  listed counted boxed tried threatening : Purpose

unfoldable pub key_for : Purpose → Bytes → Bytes → Bytes
unfolding blacklist_key counter_key penalty_key attempts_key threat_key
key_for listed prefix ip = blacklist_key prefix ip
key_for counted prefix key = counter_key prefix key
key_for boxed prefix ip = penalty_key prefix ip
key_for tried prefix ip = attempts_key prefix ip
key_for threatening prefix ip = threat_key prefix ip

-- With one prefix, two keys are the same only if they have one purpose and one address (or rate-limit
-- key): no address can reach the entries of another, nor one kind of entry those of another kind.
pub key_for_injective :
    (k k' : Purpose) (prefix ip ip' : Bytes)
    → key_for k prefix ip ≡ key_for k' prefix ip'
    → (k ≡ k') × (ip ≡ ip')
unfolding key_for
key_for_injective listed listed prefix ip ip' e =
    (refl, append_cancel (codes ":bl:") ip ip' (append_cancel prefix _ _ e))
key_for_injective listed counted prefix ip ip' e =
    let inner = append_cancel prefix (codes ":bl:" ++ ip) (codes ":rl:" ++ ip') e in
    absurd (ground (arith, inner))
key_for_injective listed boxed prefix ip ip' e =
    let inner = append_cancel prefix (codes ":bl:" ++ ip) (codes ":pbox:" ++ ip') e in
    absurd (ground (arith, inner))
key_for_injective listed tried prefix ip ip' e =
    let inner = append_cancel prefix (codes ":bl:" ++ ip) (codes ":ban_attempts:" ++ ip') e in
    absurd (ground (arith, inner))
key_for_injective listed threatening prefix ip ip' e =
    let inner = append_cancel prefix (codes ":bl:" ++ ip) (codes ":threat:" ++ ip') e in
    absurd (ground (arith, inner))
key_for_injective counted listed prefix ip ip' e =
    let inner = append_cancel prefix (codes ":rl:" ++ ip) (codes ":bl:" ++ ip') e in
    absurd (ground (arith, inner))
key_for_injective counted counted prefix ip ip' e =
    (refl, append_cancel (codes ":rl:") ip ip' (append_cancel prefix _ _ e))
key_for_injective counted boxed prefix ip ip' e =
    let inner = append_cancel prefix (codes ":rl:" ++ ip) (codes ":pbox:" ++ ip') e in
    absurd (ground (arith, inner))
key_for_injective counted tried prefix ip ip' e =
    let inner = append_cancel prefix (codes ":rl:" ++ ip) (codes ":ban_attempts:" ++ ip') e in
    absurd (ground (arith, inner))
key_for_injective counted threatening prefix ip ip' e =
    let inner = append_cancel prefix (codes ":rl:" ++ ip) (codes ":threat:" ++ ip') e in
    absurd (ground (arith, inner))
key_for_injective boxed listed prefix ip ip' e =
    let inner = append_cancel prefix (codes ":pbox:" ++ ip) (codes ":bl:" ++ ip') e in
    absurd (ground (arith, inner))
key_for_injective boxed counted prefix ip ip' e =
    let inner = append_cancel prefix (codes ":pbox:" ++ ip) (codes ":rl:" ++ ip') e in
    absurd (ground (arith, inner))
key_for_injective boxed boxed prefix ip ip' e =
    (refl, append_cancel (codes ":pbox:") ip ip' (append_cancel prefix _ _ e))
key_for_injective boxed tried prefix ip ip' e =
    let inner = append_cancel prefix (codes ":pbox:" ++ ip) (codes ":ban_attempts:" ++ ip') e in
    absurd (ground (arith, inner))
key_for_injective boxed threatening prefix ip ip' e =
    let inner = append_cancel prefix (codes ":pbox:" ++ ip) (codes ":threat:" ++ ip') e in
    absurd (ground (arith, inner))
key_for_injective tried listed prefix ip ip' e =
    let inner = append_cancel prefix (codes ":ban_attempts:" ++ ip) (codes ":bl:" ++ ip') e in
    absurd (ground (arith, inner))
key_for_injective tried counted prefix ip ip' e =
    let inner = append_cancel prefix (codes ":ban_attempts:" ++ ip) (codes ":rl:" ++ ip') e in
    absurd (ground (arith, inner))
key_for_injective tried boxed prefix ip ip' e =
    let inner = append_cancel prefix (codes ":ban_attempts:" ++ ip) (codes ":pbox:" ++ ip') e in
    absurd (ground (arith, inner))
key_for_injective tried tried prefix ip ip' e =
    (refl, append_cancel (codes ":ban_attempts:") ip ip' (append_cancel prefix _ _ e))
key_for_injective tried threatening prefix ip ip' e =
    let inner = append_cancel prefix (codes ":ban_attempts:" ++ ip) (codes ":threat:" ++ ip') e in
    absurd (ground (arith, inner))
key_for_injective threatening listed prefix ip ip' e =
    let inner = append_cancel prefix (codes ":threat:" ++ ip) (codes ":bl:" ++ ip') e in
    absurd (ground (arith, inner))
key_for_injective threatening counted prefix ip ip' e =
    let inner = append_cancel prefix (codes ":threat:" ++ ip) (codes ":rl:" ++ ip') e in
    absurd (ground (arith, inner))
key_for_injective threatening boxed prefix ip ip' e =
    let inner = append_cancel prefix (codes ":threat:" ++ ip) (codes ":pbox:" ++ ip') e in
    absurd (ground (arith, inner))
key_for_injective threatening tried prefix ip ip' e =
    let inner = append_cancel prefix (codes ":threat:" ++ ip) (codes ":ban_attempts:" ++ ip') e in
    absurd (ground (arith, inner))
key_for_injective threatening threatening prefix ip ip' e =
    (refl, append_cancel (codes ":threat:") ip ip' (append_cancel prefix _ _ e))
