-- ===== src/Social/Follows.antt =====
-- services/social-service/internal: the table of repository/follow_repository.go and the calls of
-- service/follow_service.go that change it. The lists of followers are read from the same rows.
use microservice_metarang.Prelude.{ℕ, Bool, ◌&&◌, List, [], ◌∷◌, ◌++◌, ◌==◌, ltb}
use microservice_metarang.Prelude.Rows.{remove, count}
use microservice_metarang.Prelude.Action.{Action, gets, fail_if, modify, ◌>>=◌, ◌>>◌}

pub record Follow : Type 0 where
  pub follower_id : ℕ
  pub following_id : ℕ
  pub created_at : ℕ

abbrev pub Follows : Type 0
Follows = List Follow

pub data Refusal : Type 0 where
  cannot_follow_self already_following : Refusal

abbrev pub Step : Type 0 → Type 0
Step A = Action Follows Refusal A

abbrev pub is_follow : ℕ → ℕ → Follow → Bool
is_follow follower following f = f.follower_id == follower && f.following_id == following

unfoldable pub exists : ℕ → ℕ → Follows → Bool
exists follower following l = ltb 0 (count (is_follow follower following) l)

unfoldable pub create : Follow → Follows → Follows
create f l = l ++ f ∷ []

unfoldable pub delete : ℕ → ℕ → Follows → Follows
delete follower following l = remove (is_follow follower following) l

unfoldable pub follow : ℕ → ℕ → ℕ → Step (Unit {0})
follow now user target = do
  fail_if (user == target) cannot_follow_self
  found ← gets (exists user target)
  fail_if found already_following
  modify (create (record { follower_id = user; following_id = target; created_at = now }))

unfoldable pub unfollow : ℕ → ℕ → Step (Unit {0})
unfollow user target = modify (delete user target)

-- The follower is removed by the one who is followed.
unfoldable pub remove_follower : ℕ → ℕ → Step (Unit {0})
remove_follower user target = modify (delete target user)
