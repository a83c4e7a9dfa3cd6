-- ===== src/Builder/Core/Rewrites.antt =====
-- What `commit_storage_changes` leaves in the chain, over a database that keeps what is written to it.
use fudge.Prelude.{Leaves, Leaves-continue}
use fudge.Node.{Node, BlockId, Changes}
use fudge.Builder.Core.{
  Builder, call, get_block_header, check_best_hash_and_revert, backend_operation_start,
  backend_state_operation_start,
}
use fudge.Builder.Core.State.{commit_storage_changes}
use fudge.Builder.Core.Database.{Database, anything}
use fudge.Builder.Core.Running.{mutate_normal_lem}
use fudge.Builder.Core.Commits.{Latest, commit_call}

module _ {n : Node} {V : Type 0} (d : Database n V) where
  -- Over a database that keeps what is written to it, changes that make up a view, written to any block by `commit_storage_changes`,
  -- leave a best block whose state reads as that view, where this succeeds.
  pub commit_storage_changes-reads :
      (c : Changes n) (v : V) (at : BlockId n.Hash) (b : Builder n)
      → d.Makes c v
      → Leaves (λ _ b'. Latest d v b'.world) (λ _. Unit {0}) (commit_storage_changes n c at b)
  unfolding commit_storage_changes
  commit_storage_changes-reads c v at b m =
      let F = λ (_ : Builder n). Unit {0} in
      let Q = λ (_ : Unit {0}) (b' : Builder n). Latest d v b'.world in
      Leaves-continue (λ _ _. Unit {0}) Q F _ _
        (anything (call n (backend_operation_start at) n.begin_operation b))
        (λ op b₁ _.
          Leaves-continue (λ _ _. Unit {0}) Q F _ _ (anything (get_block_header n at b₁))
            (λ header b₂ _.
              Leaves-continue (λ _ _. Unit {0}) Q F _ _
                (anything (
                  call n (backend_state_operation_start at)
                    (n.begin_state_operation (n.hash_of header) op) b₂))
                (λ op b₃ _.
                  Leaves-continue (λ _ _. Unit {0}) Q F _ _
                    (anything (check_best_hash_and_revert n (n.number_of header) b₃))
                    (λ _ b₄ _.
                      Leaves-continue (λ op' _. d.Sealed op' v) Q F _ _
                        (mutate_normal_lem d c v at op b₄ m)
                        (λ op' b₅ k. commit_call d at op' v b₅ k)))))
