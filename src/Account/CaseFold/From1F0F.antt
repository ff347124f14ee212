-- ===== src/Account/CaseFold/From1F0F.antt =====
-- The rows of FULL_DEFAULT_CASE_FOLD in rust/src/api/account_envelope/unicode17_casefold.rs from
-- U+1F0F to U+212B.
use openmls_dart.Prelude.{ℕ, List, [], ◌∷◌}

unfoldable pub folds_from_1f0f : List (ℕ × List ℕ)
folds_from_1f0f =
    (7951, 7943 ∷ [])
    ∷ (7960, 7952 ∷ [])
    ∷ (7961, 7953 ∷ [])
    ∷ (7962, 7954 ∷ [])
    ∷ (7963, 7955 ∷ [])
    ∷ (7964, 7956 ∷ [])
    ∷ (7965, 7957 ∷ [])
    ∷ (7976, 7968 ∷ [])
    ∷ (7977, 7969 ∷ [])
    ∷ (7978, 7970 ∷ [])
    ∷ (7979, 7971 ∷ [])
    ∷ (7980, 7972 ∷ [])
    ∷ (7981, 7973 ∷ [])
    ∷ (7982, 7974 ∷ [])
    ∷ (7983, 7975 ∷ [])
    ∷ (7992, 7984 ∷ [])
    ∷ (7993, 7985 ∷ [])
    ∷ (7994, 7986 ∷ [])
    ∷ (7995, 7987 ∷ [])
    ∷ (7996, 7988 ∷ [])
    ∷ (7997, 7989 ∷ [])
    ∷ (7998, 7990 ∷ [])
    ∷ (7999, 7991 ∷ [])
    ∷ (8008, 8000 ∷ [])
    ∷ (8009, 8001 ∷ [])
    ∷ (8010, 8002 ∷ [])
    ∷ (8011, 8003 ∷ [])
    ∷ (8012, 8004 ∷ [])
    ∷ (8013, 8005 ∷ [])
    ∷ (8016, 965 ∷ 787 ∷ [])
    ∷ (8018, 965 ∷ 787 ∷ 768 ∷ [])
    ∷ (8020, 965 ∷ 787 ∷ 769 ∷ [])
    ∷ (8022, 965 ∷ 787 ∷ 834 ∷ [])
    ∷ (8025, 8017 ∷ [])
    ∷ (8027, 8019 ∷ [])
    ∷ (8029, 8021 ∷ [])
    ∷ (8031, 8023 ∷ [])
    ∷ (8040, 8032 ∷ [])
    ∷ (8041, 8033 ∷ [])
    ∷ (8042, 8034 ∷ [])
    ∷ (8043, 8035 ∷ [])
    ∷ (8044, 8036 ∷ [])
    ∷ (8045, 8037 ∷ [])
    ∷ (8046, 8038 ∷ [])
    ∷ (8047, 8039 ∷ [])
    ∷ (8064, 7936 ∷ 953 ∷ [])
    ∷ (8065, 7937 ∷ 953 ∷ [])
    ∷ (8066, 7938 ∷ 953 ∷ [])
    ∷ (8067, 7939 ∷ 953 ∷ [])
    ∷ (8068, 7940 ∷ 953 ∷ [])
    ∷ (8069, 7941 ∷ 953 ∷ [])
    ∷ (8070, 7942 ∷ 953 ∷ [])
    ∷ (8071, 7943 ∷ 953 ∷ [])
    ∷ (8072, 7936 ∷ 953 ∷ [])
    ∷ (8073, 7937 ∷ 953 ∷ [])
    ∷ (8074, 7938 ∷ 953 ∷ [])
    ∷ (8075, 7939 ∷ 953 ∷ [])
    ∷ (8076, 7940 ∷ 953 ∷ [])
    ∷ (8077, 7941 ∷ 953 ∷ [])
    ∷ (8078, 7942 ∷ 953 ∷ [])
    ∷ (8079, 7943 ∷ 953 ∷ [])
    ∷ (8080, 7968 ∷ 953 ∷ [])
    ∷ (8081, 7969 ∷ 953 ∷ [])
    ∷ (8082, 7970 ∷ 953 ∷ [])
    ∷ (8083, 7971 ∷ 953 ∷ [])
    ∷ (8084, 7972 ∷ 953 ∷ [])
    ∷ (8085, 7973 ∷ 953 ∷ [])
    ∷ (8086, 7974 ∷ 953 ∷ [])
    ∷ (8087, 7975 ∷ 953 ∷ [])
    ∷ (8088, 7968 ∷ 953 ∷ [])
    ∷ (8089, 7969 ∷ 953 ∷ [])
    ∷ (8090, 7970 ∷ 953 ∷ [])
    ∷ (8091, 7971 ∷ 953 ∷ [])
    ∷ (8092, 7972 ∷ 953 ∷ [])
    ∷ (8093, 7973 ∷ 953 ∷ [])
    ∷ (8094, 7974 ∷ 953 ∷ [])
    ∷ (8095, 7975 ∷ 953 ∷ [])
    ∷ (8096, 8032 ∷ 953 ∷ [])
    ∷ (8097, 8033 ∷ 953 ∷ [])
    ∷ (8098, 8034 ∷ 953 ∷ [])
    ∷ (8099, 8035 ∷ 953 ∷ [])
    ∷ (8100, 8036 ∷ 953 ∷ [])
    ∷ (8101, 8037 ∷ 953 ∷ [])
    ∷ (8102, 8038 ∷ 953 ∷ [])
    ∷ (8103, 8039 ∷ 953 ∷ [])
    ∷ (8104, 8032 ∷ 953 ∷ [])
    ∷ (8105, 8033 ∷ 953 ∷ [])
    ∷ (8106, 8034 ∷ 953 ∷ [])
    ∷ (8107, 8035 ∷ 953 ∷ [])
    ∷ (8108, 8036 ∷ 953 ∷ [])
    ∷ (8109, 8037 ∷ 953 ∷ [])
    ∷ (8110, 8038 ∷ 953 ∷ [])
    ∷ (8111, 8039 ∷ 953 ∷ [])
    ∷ (8114, 8048 ∷ 953 ∷ [])
    ∷ (8115, 945 ∷ 953 ∷ [])
    ∷ (8116, 940 ∷ 953 ∷ [])
    ∷ (8118, 945 ∷ 834 ∷ [])
    ∷ (8119, 945 ∷ 834 ∷ 953 ∷ [])
    ∷ (8120, 8112 ∷ [])
    ∷ (8121, 8113 ∷ [])
    ∷ (8122, 8048 ∷ [])
    ∷ (8123, 8049 ∷ [])
    ∷ (8124, 945 ∷ 953 ∷ [])
    ∷ (8126, 953 ∷ [])
    ∷ (8130, 8052 ∷ 953 ∷ [])
    ∷ (8131, 951 ∷ 953 ∷ [])
    ∷ (8132, 942 ∷ 953 ∷ [])
    ∷ (8134, 951 ∷ 834 ∷ [])
    ∷ (8135, 951 ∷ 834 ∷ 953 ∷ [])
    ∷ (8136, 8050 ∷ [])
    ∷ (8137, 8051 ∷ [])
    ∷ (8138, 8052 ∷ [])
    ∷ (8139, 8053 ∷ [])
    ∷ (8140, 951 ∷ 953 ∷ [])
    ∷ (8146, 953 ∷ 776 ∷ 768 ∷ [])
    ∷ (8147, 953 ∷ 776 ∷ 769 ∷ [])
    ∷ (8150, 953 ∷ 834 ∷ [])
    ∷ (8151, 953 ∷ 776 ∷ 834 ∷ [])
    ∷ (8152, 8144 ∷ [])
    ∷ (8153, 8145 ∷ [])
    ∷ (8154, 8054 ∷ [])
    ∷ (8155, 8055 ∷ [])
    ∷ (8162, 965 ∷ 776 ∷ 768 ∷ [])
    ∷ (8163, 965 ∷ 776 ∷ 769 ∷ [])
    ∷ (8164, 961 ∷ 787 ∷ [])
    ∷ (8166, 965 ∷ 834 ∷ [])
    ∷ (8167, 965 ∷ 776 ∷ 834 ∷ [])
    ∷ (8168, 8160 ∷ [])
    ∷ (8169, 8161 ∷ [])
    ∷ (8170, 8058 ∷ [])
    ∷ (8171, 8059 ∷ [])
    ∷ (8172, 8165 ∷ [])
    ∷ (8178, 8060 ∷ 953 ∷ [])
    ∷ (8179, 969 ∷ 953 ∷ [])
    ∷ (8180, 974 ∷ 953 ∷ [])
    ∷ (8182, 969 ∷ 834 ∷ [])
    ∷ (8183, 969 ∷ 834 ∷ 953 ∷ [])
    ∷ (8184, 8056 ∷ [])
    ∷ (8185, 8057 ∷ [])
    ∷ (8186, 8060 ∷ [])
    ∷ (8187, 8061 ∷ [])
    ∷ (8188, 969 ∷ 953 ∷ [])
    ∷ (8486, 969 ∷ [])
    ∷ (8490, 107 ∷ [])
    ∷ (8491, 229 ∷ [])
    ∷ []
