-- ===== src/Rpc/Reading.antt =====
-- internal/rpc/server.go: GetState. The live facts of internal/netconfig, the evidence of
-- internal/observation and what the features add are parameters.
use ghostd.Prelude.{String, Bool, Option, List, [], ◌∷◌, if◌then◌else◌}
use ghostd.Env.{Env}
use ghostd.Effect.{M, ◌>>=◌, ◌>>◌, pure, gets, or_fail, recode, probe, unauthenticated, internal}
use ghostd.Auth.{identify}
use ghostd.Rpc.Server.{peer_addr}
use ghostd.Rpc.Executors.{read_ruleset}

-- State, the answer of GetState.
pub record LiveState (e : Env) : Type 0 where
  pub nft_ruleset_json : e.Blob
  pub netconfig_json : e.Blob
  pub adoption_evidence_json : e.Blob

-- `extenders` is stateExtenders, in the order of their registration.
pub record Readers (e : Env) : Type 0 where
  pub live : e.Kernel → e.Blob
  pub evidence : e.Kernel → Option e.Blob
  pub extenders : List (LiveState e → M e (LiveState e))

module _ {e : Env} where
  -- netconfig.ReadLiveJSON
  read_live : Readers e → M e e.Blob
  read_live readers = do probe; gets (λ h. readers.live h.kernel)

  extend_all : List (LiveState e → M e (LiveState e)) → LiveState e → M e (LiveState e)
  extend_all [] response = pure response
  extend_all (extend ∷ rest) response = do
    extended ← recode internal (extend response)
    extend_all rest extended

  with_evidence : Readers e → Bool → LiveState e → M e (LiveState e)
  with_evidence readers wanted response =
      if wanted
      then (do
        found ← gets (λ h. readers.evidence h.kernel)
        raw ← or_fail internal found
        pure (record response { adoption_evidence_json = raw }))
      else pure response

  unfoldable pub get_state : Readers e → Option String → Bool → M e (LiveState e)
  unfolding read_live extend_all with_evidence
  get_state readers peer include_adoption_evidence = do
    addr ← peer_addr peer
    id ← recode unauthenticated (identify addr)
    rules ← recode internal read_ruleset
    netconfig ← recode internal (read_live readers)
    response ← extend_all readers.extenders (record {
      nft_ruleset_json = rules;
      netconfig_json = netconfig;
      adoption_evidence_json = e.empty;
    })
    with_evidence readers include_adoption_evidence response
