-- ===== src/Controller/Update/Answers.antt =====
-- What updateStatusKptGroup does for each answer of the server.
use kpt_resource_group.Base.{◌≡◌, ◌≢◌, ◌∙◌, true, if◌then◌else◌, arith}
use kpt_resource_group.Api.{Time, ResourceGroup, ResourceGroupStatus}
use kpt_resource_group.Status.{Objects}
use kpt_resource_group.Controller.Update.{Cluster, done, failed_update, update_status_kpt_group}
use kpt_resource_group.Controller.Update.Conflict.{ordered}
use kpt_resource_group.Controller.Update.Retry.{
  sent, after_write, is_refused, retry-write_status, outcome-retry, world-retry,
}

module _ {objects : Objects} (cluster : Cluster objects) (now : Time) (new : ResourceGroupStatus)
    (w : cluster.World) (g : ResourceGroup) where
  open cluster use {update_status, deep_equal, retries}

  -- With at least one retry updateStatusKptGroup makes one write at most, whatever the server answers:
  -- none where the status is equal, else one of the object with its conditions in order, whose answer
  -- decides the rest, where a conflict is reported as a success.
  pub update_status_kpt_group_answers :
      retries ≢ 0
      → update_status_kpt_group cluster now new w g ≡ (
          if deep_equal g.status (ordered now new)
          then record { world = w; group = g; outcome = done }
          else after_write cluster
              (ordered now new)
              w
              g
              (update_status w (sent cluster (ordered now new) w g)))
  unfolding update_status_kpt_group
  update_status_kpt_group_answers = retry-write_status cluster (ordered now new) w g

  pub update_status_kpt_group-outcome :
      retries ≢ 0
      → (update_status_kpt_group cluster now new w g).outcome
        ≡ (if is_refused cluster (ordered now new) w g then failed_update else done)
  unfolding update_status_kpt_group
  update_status_kpt_group-outcome = outcome-retry cluster (ordered now new) w g

  pub update_status_kpt_group-world :
      retries ≢ 0
      → is_refused cluster (ordered now new) w g ≡ true
      → (update_status_kpt_group cluster now new w g).world
        ≡ (update_status w (sent cluster (ordered now new) w g)).0
  unfolding update_status_kpt_group
  update_status_kpt_group-world n h =
      world-retry cluster (ordered now new) w g n ∙ ground (arith, h)
