-- ===== src/Tests/ContextTests.antt =====
-- The theorem on the cleaning of a context file, on a short text.
use velix.Prelude.{false, ◌∷◌, ◌++◌, ◌≡◌, refl, codes, contains, nat_eq}
use velix.ContextFiles.{zero_width_space, clean_invisible_chars}
use velix.ContextFiles.Cleaning.{clean_leaves_nested}

front_226 : contains 226 (codes "ig") ≡ false
unfolding contains
front_226 = refl

back_226 : contains 226 (codes "nore") ≡ false
unfolding contains
back_226 = refl

front_239 : contains 239 (codes "ig") ≡ false
unfolding contains
front_239 = refl

back_239 : contains 239 (codes "nore") ≡ false
unfolding contains
back_239 = refl

clean_leaves_nested_example :
    clean_invisible_chars (codes "ig" ++ (226 ∷ 128 ∷ (zero_width_space ++ (139 ∷ codes "nore"))))
    ≡ (codes "ig" ++ (zero_width_space ++ codes "nore"))
clean_leaves_nested_example =
    clean_leaves_nested (codes "ig") (codes "nore") front_226 back_226 front_239 back_239
