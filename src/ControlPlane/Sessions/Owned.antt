-- ===== src/ControlPlane/Sessions/Owned.antt =====
-- A session is answered for to its owner alone.
use Prim.Native.Nat.{◌/◌}
use serverless_harness.Base.{
  String, ◌≡◌, sym, ap, ◌∙◌, false, Option, none, some, [], ◌∷◌, ◌+◌, good, need-good, require-good,
  good_inj, some_inj,
}
use serverless_harness.Base.Actions.{>>=-good}
use serverless_harness.ControlPlane.Errors.{Thrown}
use serverless_harness.ControlPlane.Token.{Jose}
use serverless_harness.ControlPlane.Token.Verified.{not-true}
use serverless_harness.ControlPlane.Token.Mint.{mint}
use serverless_harness.ControlPlane.Ownership.{CpRedis, SessionRecord}
use serverless_harness.ControlPlane.Ownership.Records.{RedisLaws, record_in, get_session-record_in}
use serverless_harness.ControlPlane.Exchange.Spends.{owned_by-some}
use serverless_harness.ControlPlane.Sessions.{
  Principal, SessionDeps, SessionToken, assert_owner, mint_session_token, session_token, roles_of,
}

module _ (jose : Jose) (redis : CpRedis) (laws : RedisLaws redis) where
  -- The caller has a token, the record is in the index, and its owner is the caller.
  abbrev pub IsOwned : String → Option Principal → redis.World → SessionRecord → Type 0
  IsOwned sid principal w rec =
      (p : Principal) × (principal ≡ some p)
      × (record_in redis.read_number (redis.view w) sid ≡ some rec)
      × (p.sub ≡ rec.owner)

  assert_owner-IsOwned :
      (sid : String) (principal : Option Principal) (w v : redis.World) (rec : SessionRecord)
      → assert_owner jose redis sid principal w ≡ (v, good rec)
      → IsOwned sid principal w rec
  unfolding assert_owner
  assert_owner-IsOwned sid principal w v rec h =
      let (w1, p, given, h1) = >>=-good _ _ w v rec h in
      let (w2, found, got, h2) = >>=-good _ _ w1 v rec h1 in
      let (is, same) = get_session-record_in redis laws sid w1 w2 found got in
      let (there, owner) =
        owned_by-some (some p.sub) found rec (need-good _ _ rec (ap (λ q. q.1) h2)) in
      (
        p,
        need-good _ _ p (ap (λ q. q.1) given),
        ap (λ x. record_in redis.read_number (redis.view x) sid) (ap (λ q. q.0) given)
            ∙ sym is
            ∙ there,
        some_inj p.sub rec.owner owner,
      )

  -- A token for a session is minted only for the caller who owns it and while it is not deleted. It is signed for
  -- the owner as its subject, the tenant and the id of the session, the scope `turn:write` and no other, and the
  -- roles of the caller, from now for the time that is configured, which is when the answer says that it expires.
  pub mint_session_token-IsOwned :
      (deps : SessionDeps jose redis) (sid : String) (principal : Option Principal)
      (w v : redis.World) (r : SessionToken)
      → mint_session_token jose redis deps sid principal w ≡ (v, good r)
      → (p : Principal) × (rec : SessionRecord) × (principal ≡ some p)
        × (record_in redis.read_number (redis.view w) sid ≡ some rec)
        × (p.sub ≡ rec.owner)
        × (rec.tombstone ≡ false)
        × (r.session_id ≡ rec.session_id)
        × (r.expires_at ≡ deps.now_ms / 1000 + deps.session_token_ttl_seconds)
        × (r.token
            ≡ mint jose deps.signer
                (record {
                  sub = rec.owner;
                  tenant = rec.tenant;
                  roles = p.roles;
                  scope = "turn:write" ∷ [];
                  ttl_seconds = deps.session_token_ttl_seconds;
                  sid = some rec.session_id;
                  iss = none;
                })
                (deps.now_ms / 1000)
                deps.jti)
  unfolding mint_session_token
  mint_session_token-IsOwned deps sid principal w v r h =
      let (w1, rec, owned, h1) = >>=-good _ _ w v r h in
      let (w2, u, alive, h2) = >>=-good _ _ w1 v r h1 in
      let (p, caller, there, owner) = assert_owner-IsOwned sid principal w w1 rec owned in
      let is : session_token jose redis deps rec (roles_of jose redis principal) ≡ r =
        good_inj Thrown _ r (ap (λ q. q.1) h2) in
      (
        p,
        rec,
        caller,
        there,
        owner,
        not-true _ (require-good _ _ _ (ap (λ q. q.1) alive)),
        ap (λ t. t.session_id) (sym is),
        ap (λ t. t.expires_at) (sym is),
        ap (λ t. t.token) (sym is)
            ∙ ap (λ o. (session_token jose redis deps rec (roles_of jose redis o)).token) caller,
      )
