-- ===== src/Protocol/Messages/Features.antt =====
-- `copyFeatures` against `createFeatures` (protocol/messages.cpp).
use yo_authorize.Protocol.Messages.{
  copy_feature_list, copy_features, List, or_empty, valid_features, valid_feature, create_features,
  features_lost,
}
use yo_authorize.Prelude.{
  List, Bytes, all_of, length, map, ◌≡◌, true, Option, some, ◌∷◌, arith, false, [], refl,
}

copy_feature_list-map :
    (features : List Bytes)
    → all_of valid_feature features ≡ true
    → copy_feature_list (map some features) ≡ some features
unfolding copy_feature_list
copy_feature_list-map [] h = refl
copy_feature_list-map (f ∷ fs) h = ground (arith, h, copy_feature_list-map fs)

length-map-some :
    (features : List Bytes) → length (map {B = Option Bytes} some features) ≡ length features
length-map-some [] = refl
length-map-some (f ∷ fs) = ground (arith, length-map-some fs)

pub copy_features-create_features :
    (features : List Bytes)
    → valid_features features ≡ true
    → (copy_features (create_features features) ≡ features)
      × (features_lost (create_features features) features ≡ false)
unfolding copy_features or_empty
copy_features-create_features features h =
    ground (arith, h, copy_feature_list-map features, length-map-some features)
