-- ===== src/Account/CaseFold/From0041.antt =====
-- The rows of FULL_DEFAULT_CASE_FOLD in rust/src/api/account_envelope/unicode17_casefold.rs from
-- U+0041 to U+01A2.
use openmls_dart.Prelude.{ℕ, List, [], ◌∷◌}

unfoldable pub folds_from_0041 : List (ℕ × List ℕ)
folds_from_0041 =
    (65, 97 ∷ [])
    ∷ (66, 98 ∷ [])
    ∷ (67, 99 ∷ [])
    ∷ (68, 100 ∷ [])
    ∷ (69, 101 ∷ [])
    ∷ (70, 102 ∷ [])
    ∷ (71, 103 ∷ [])
    ∷ (72, 104 ∷ [])
    ∷ (73, 105 ∷ [])
    ∷ (74, 106 ∷ [])
    ∷ (75, 107 ∷ [])
    ∷ (76, 108 ∷ [])
    ∷ (77, 109 ∷ [])
    ∷ (78, 110 ∷ [])
    ∷ (79, 111 ∷ [])
    ∷ (80, 112 ∷ [])
    ∷ (81, 113 ∷ [])
    ∷ (82, 114 ∷ [])
    ∷ (83, 115 ∷ [])
    ∷ (84, 116 ∷ [])
    ∷ (85, 117 ∷ [])
    ∷ (86, 118 ∷ [])
    ∷ (87, 119 ∷ [])
    ∷ (88, 120 ∷ [])
    ∷ (89, 121 ∷ [])
    ∷ (90, 122 ∷ [])
    ∷ (181, 956 ∷ [])
    ∷ (192, 224 ∷ [])
    ∷ (193, 225 ∷ [])
    ∷ (194, 226 ∷ [])
    ∷ (195, 227 ∷ [])
    ∷ (196, 228 ∷ [])
    ∷ (197, 229 ∷ [])
    ∷ (198, 230 ∷ [])
    ∷ (199, 231 ∷ [])
    ∷ (200, 232 ∷ [])
    ∷ (201, 233 ∷ [])
    ∷ (202, 234 ∷ [])
    ∷ (203, 235 ∷ [])
    ∷ (204, 236 ∷ [])
    ∷ (205, 237 ∷ [])
    ∷ (206, 238 ∷ [])
    ∷ (207, 239 ∷ [])
    ∷ (208, 240 ∷ [])
    ∷ (209, 241 ∷ [])
    ∷ (210, 242 ∷ [])
    ∷ (211, 243 ∷ [])
    ∷ (212, 244 ∷ [])
    ∷ (213, 245 ∷ [])
    ∷ (214, 246 ∷ [])
    ∷ (216, 248 ∷ [])
    ∷ (217, 249 ∷ [])
    ∷ (218, 250 ∷ [])
    ∷ (219, 251 ∷ [])
    ∷ (220, 252 ∷ [])
    ∷ (221, 253 ∷ [])
    ∷ (222, 254 ∷ [])
    ∷ (223, 115 ∷ 115 ∷ [])
    ∷ (256, 257 ∷ [])
    ∷ (258, 259 ∷ [])
    ∷ (260, 261 ∷ [])
    ∷ (262, 263 ∷ [])
    ∷ (264, 265 ∷ [])
    ∷ (266, 267 ∷ [])
    ∷ (268, 269 ∷ [])
    ∷ (270, 271 ∷ [])
    ∷ (272, 273 ∷ [])
    ∷ (274, 275 ∷ [])
    ∷ (276, 277 ∷ [])
    ∷ (278, 279 ∷ [])
    ∷ (280, 281 ∷ [])
    ∷ (282, 283 ∷ [])
    ∷ (284, 285 ∷ [])
    ∷ (286, 287 ∷ [])
    ∷ (288, 289 ∷ [])
    ∷ (290, 291 ∷ [])
    ∷ (292, 293 ∷ [])
    ∷ (294, 295 ∷ [])
    ∷ (296, 297 ∷ [])
    ∷ (298, 299 ∷ [])
    ∷ (300, 301 ∷ [])
    ∷ (302, 303 ∷ [])
    ∷ (304, 105 ∷ 775 ∷ [])
    ∷ (306, 307 ∷ [])
    ∷ (308, 309 ∷ [])
    ∷ (310, 311 ∷ [])
    ∷ (313, 314 ∷ [])
    ∷ (315, 316 ∷ [])
    ∷ (317, 318 ∷ [])
    ∷ (319, 320 ∷ [])
    ∷ (321, 322 ∷ [])
    ∷ (323, 324 ∷ [])
    ∷ (325, 326 ∷ [])
    ∷ (327, 328 ∷ [])
    ∷ (329, 700 ∷ 110 ∷ [])
    ∷ (330, 331 ∷ [])
    ∷ (332, 333 ∷ [])
    ∷ (334, 335 ∷ [])
    ∷ (336, 337 ∷ [])
    ∷ (338, 339 ∷ [])
    ∷ (340, 341 ∷ [])
    ∷ (342, 343 ∷ [])
    ∷ (344, 345 ∷ [])
    ∷ (346, 347 ∷ [])
    ∷ (348, 349 ∷ [])
    ∷ (350, 351 ∷ [])
    ∷ (352, 353 ∷ [])
    ∷ (354, 355 ∷ [])
    ∷ (356, 357 ∷ [])
    ∷ (358, 359 ∷ [])
    ∷ (360, 361 ∷ [])
    ∷ (362, 363 ∷ [])
    ∷ (364, 365 ∷ [])
    ∷ (366, 367 ∷ [])
    ∷ (368, 369 ∷ [])
    ∷ (370, 371 ∷ [])
    ∷ (372, 373 ∷ [])
    ∷ (374, 375 ∷ [])
    ∷ (376, 255 ∷ [])
    ∷ (377, 378 ∷ [])
    ∷ (379, 380 ∷ [])
    ∷ (381, 382 ∷ [])
    ∷ (383, 115 ∷ [])
    ∷ (385, 595 ∷ [])
    ∷ (386, 387 ∷ [])
    ∷ (388, 389 ∷ [])
    ∷ (390, 596 ∷ [])
    ∷ (391, 392 ∷ [])
    ∷ (393, 598 ∷ [])
    ∷ (394, 599 ∷ [])
    ∷ (395, 396 ∷ [])
    ∷ (398, 477 ∷ [])
    ∷ (399, 601 ∷ [])
    ∷ (400, 603 ∷ [])
    ∷ (401, 402 ∷ [])
    ∷ (403, 608 ∷ [])
    ∷ (404, 611 ∷ [])
    ∷ (406, 617 ∷ [])
    ∷ (407, 616 ∷ [])
    ∷ (408, 409 ∷ [])
    ∷ (412, 623 ∷ [])
    ∷ (413, 626 ∷ [])
    ∷ (415, 629 ∷ [])
    ∷ (416, 417 ∷ [])
    ∷ (418, 419 ∷ [])
    ∷ []
