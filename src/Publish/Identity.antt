-- ===== src/Publish/Identity.antt =====
-- Which target a sidecar that was recorded for another one authorizes.
use kadalu.Prelude.{◌≡◌, Bool, true, ◌&&◌, ◌||◌, some, Text, text_eq, text_eq_refl, arith}
use kadalu.Json.{str, obj}
use kadalu.Json.Equality.{json_eq, dict_eq}
use kadalu.Publish.{state_fields, same_mount_identity_generation, publish_state_matches}

factor :
    (a b c d e allowed g : Bool)
    → (a && (b && (c && (d && (e && true)))) || allowed && g && (a && (b && (c && (d && true)))))
      ≡ (a && b && c && d && (e || (allowed && g)))
factor a b c d e allowed g = ground arith

-- A sidecar of one target authorizes the recovery of another exactly if they agree in the volume, its
-- type and path and the pool, and either in the mount identity too, or, where revisions of the
-- configuration are allowed, in the generation of the mount identity.
pub publish_state_matches_lem :
    (v w t u p q h k i j : Text) (allowed : Bool)
    → publish_state_matches
        (some (obj (state_fields v t p h i)))
        (some (state_fields w u q k j))
        allowed
      ≡ (text_eq v w
          && text_eq t u
          && text_eq p q
          && text_eq h k
          && (text_eq i j
              || (allowed && same_mount_identity_generation (some (str i)) (some (str j)))))
unfolding publish_state_matches json_eq dict_eq
publish_state_matches_lem v w t u p q h k i j allowed = rw (text_eq_refl j) (
    factor (text_eq v w) (text_eq t u) (text_eq p q) (text_eq h k) (text_eq i j) allowed
      (same_mount_identity_generation (some (str i)) (some (str j))))
