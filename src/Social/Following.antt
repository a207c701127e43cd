-- ===== src/Social/Following.antt =====
-- services/social-service/internal/service/follow_service.go: who follows whom under sequences of
-- calls.
use microservice_metarang.Prelude.{
  ℕ, ◌≤◌, Bool, true, false, List, [], ◌∷◌, ◌++◌, ◌≡◌, ◌≢◌, refl, inl, inr, arith, ◌==◌, ==_iff,
  ==_refl, ltb, Bool-cases, All,
}
use microservice_metarang.Prelude.Rows.{remove, count, count-append}
use microservice_metarang.Prelude.Action.{ok}
use microservice_metarang.Social.Follows.{
  Follow, Follows, is_follow, exists, create, delete, follow, unfollow, remove_follower,
}

-- Nobody follows himself, and nobody follows anybody twice.
pub record IsSimple (l : Follows) : Type 0 where
  pub others : All (λ (f : Follow). f.follower_id ≢ f.following_id) l
  pub single : (a b : ℕ) → count (is_follow a b) l ≤ 1

pub data Call : Type 0 where
  follows unfollows removes : ℕ → ℕ → Call

-- Each call has a time of its own.
abbrev pub serve : ℕ → Call → Follows → Follows
serve now (follows user target) l = (follow now user target l).1
serve now (unfollows user target) l = (unfollow user target l).1
serve now (removes user target) l = (remove_follower user target l).1

abbrev pub serve_all : List (ℕ × Call) → Follows → Follows
serve_all [] l = l
serve_all ((now, c) ∷ cs) l = serve_all cs (serve now c l)

count-remove : (p q : Follow → Bool) (l : Follows) → count p (remove q l) ≤ count p l
count-remove p q [] = omega arith
count-remove p q (f ∷ l) = ground (arith, count-remove p q l)

All-remove : (P : Follow → Type 0) (q : Follow → Bool) (l : Follows) → All P l → All P (remove q l)
All-remove P q [] h = tt
All-remove P q (f ∷ l) h = elim (Bool-cases (q f)) [
  | inl e ↦ rw e (All-remove P q l h.1)
  | inr e ↦ rw e (h.0, All-remove P q l h.1)
]

All-append : (P : Follow → Type 0) (l : Follows) (f : Follow) → All P l → P f → All P (l ++ f ∷ [])
All-append P [] f h k = (k, tt)
All-append P (g ∷ l) f h k = (h.0, All-append P l f h.1 k)

delete-IsSimple : (a b : ℕ) (l : Follows) → IsSimple l → IsSimple (delete a b l)
unfolding delete
delete-IsSimple a b l h = record {
  others = All-remove _ (is_follow a b) l h.others;
  single = λ c d. ground (arith, count-remove (is_follow c d) (is_follow a b) l, h.single c d);
}

same_follow :
    (a b c d : ℕ) (l : Follows)
    → (a == c) ≡ true
    → (b == d) ≡ true
    → count (is_follow a b) l ≡ count (is_follow c d) l
same_follow a b c d l h k = rw ((==_iff a c).0 h, (==_iff b d).0 k) refl

follow-IsSimple :
    (now user target : ℕ) (l : Follows) → IsSimple l → IsSimple (follow now user target l).1
unfolding follow exists create
follow-IsSimple now user target l h = elim (Bool-cases (user == target)) [
  | inl e ↦ rw e h
  | inr e ↦ rw e (elim (Bool-cases (ltb 0 (count (is_follow user target) l))) [
    | inl f ↦ rw f h
    | inr f ↦ rw f (record {
      others = All-append _ l _ h.others (ground (arith, e));
      single = λ a b.
          let r : Follow = record { follower_id = user; following_id = target; created_at = now } in
          rw (count-append (is_follow a b) l r)
            (ground (arith, f, h.single a b, same_follow user target a b l));
    })
  ])
]

serve-IsSimple : (now : ℕ) (c : Call) (l : Follows) → IsSimple l → IsSimple (serve now c l)
unfolding unfollow remove_follower
serve-IsSimple now (follows user target) l h = follow-IsSimple now user target l h
serve-IsSimple now (unfollows user target) l h = delete-IsSimple user target l h
serve-IsSimple now (removes user target) l h = delete-IsSimple target user l h

-- No calls make anybody follow himself or follow somebody twice.
pub serve_all-IsSimple :
    (cs : List (ℕ × Call)) (l : Follows) → IsSimple l → IsSimple (serve_all cs l)
serve_all-IsSimple [] l h = h
serve_all-IsSimple ((now, c) ∷ cs) l h =
    serve_all-IsSimple cs (serve now c l) (serve-IsSimple now c l h)

remove-append_absent :
    (p : Follow → Bool) (l : Follows) (f : Follow)
    → ltb 0 (count p l) ≡ false
    → p f ≡ true
    → remove p (l ++ f ∷ []) ≡ l
remove-append_absent p [] f h k = rw k refl
remove-append_absent p (g ∷ l) f h k = ground (arith, h, k, remove-append_absent p l f)

-- Who has just been followed is unfollowed again without a trace, by the follower or by himself.
pub unfollow-follow :
    (now user target : ℕ) (l : Follows)
    → (follow now user target l).0 ≡ ok tt
    → let n = (follow now user target l).1 in
      (exists user target n ≡ true)
      × ((unfollow user target n).1 ≡ l)
      × ((remove_follower target user n).1 ≡ l)
unfolding follow exists create unfollow remove_follower delete
unfollow-follow now user target l = elim (Bool-cases (user == target)) [
  | inl e ↦ rw e (λ h. absurd (ground (arith, h)))
  | inr e ↦ rw e (elim (Bool-cases (ltb 0 (count (is_follow user target) l))) [
    | inl f ↦ rw f (λ h. absurd (ground (arith, h)))
    | inr f ↦
        let r : Follow = record { follower_id = user; following_id = target; created_at = now } in
        let k : is_follow user target r ≡ true = rw (==_refl user, ==_refl target) refl in
        let g = remove-append_absent (is_follow user target) l r f k in
        rw f (λ h. (ground (arith, k, count-append (is_follow user target) l r), g, g))
  ])
]
