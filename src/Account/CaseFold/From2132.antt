-- ===== src/Account/CaseFold/From2132.antt =====
-- The rows of FULL_DEFAULT_CASE_FOLD in rust/src/api/account_envelope/unicode17_casefold.rs from
-- U+2132 to U+2CCA.
use openmls_dart.Prelude.{ℕ, List, [], ◌∷◌}

unfoldable pub folds_from_2132 : List (ℕ × List ℕ)
folds_from_2132 =
    (8498, 8526 ∷ [])
    ∷ (8544, 8560 ∷ [])
    ∷ (8545, 8561 ∷ [])
    ∷ (8546, 8562 ∷ [])
    ∷ (8547, 8563 ∷ [])
    ∷ (8548, 8564 ∷ [])
    ∷ (8549, 8565 ∷ [])
    ∷ (8550, 8566 ∷ [])
    ∷ (8551, 8567 ∷ [])
    ∷ (8552, 8568 ∷ [])
    ∷ (8553, 8569 ∷ [])
    ∷ (8554, 8570 ∷ [])
    ∷ (8555, 8571 ∷ [])
    ∷ (8556, 8572 ∷ [])
    ∷ (8557, 8573 ∷ [])
    ∷ (8558, 8574 ∷ [])
    ∷ (8559, 8575 ∷ [])
    ∷ (8579, 8580 ∷ [])
    ∷ (9398, 9424 ∷ [])
    ∷ (9399, 9425 ∷ [])
    ∷ (9400, 9426 ∷ [])
    ∷ (9401, 9427 ∷ [])
    ∷ (9402, 9428 ∷ [])
    ∷ (9403, 9429 ∷ [])
    ∷ (9404, 9430 ∷ [])
    ∷ (9405, 9431 ∷ [])
    ∷ (9406, 9432 ∷ [])
    ∷ (9407, 9433 ∷ [])
    ∷ (9408, 9434 ∷ [])
    ∷ (9409, 9435 ∷ [])
    ∷ (9410, 9436 ∷ [])
    ∷ (9411, 9437 ∷ [])
    ∷ (9412, 9438 ∷ [])
    ∷ (9413, 9439 ∷ [])
    ∷ (9414, 9440 ∷ [])
    ∷ (9415, 9441 ∷ [])
    ∷ (9416, 9442 ∷ [])
    ∷ (9417, 9443 ∷ [])
    ∷ (9418, 9444 ∷ [])
    ∷ (9419, 9445 ∷ [])
    ∷ (9420, 9446 ∷ [])
    ∷ (9421, 9447 ∷ [])
    ∷ (9422, 9448 ∷ [])
    ∷ (9423, 9449 ∷ [])
    ∷ (11264, 11312 ∷ [])
    ∷ (11265, 11313 ∷ [])
    ∷ (11266, 11314 ∷ [])
    ∷ (11267, 11315 ∷ [])
    ∷ (11268, 11316 ∷ [])
    ∷ (11269, 11317 ∷ [])
    ∷ (11270, 11318 ∷ [])
    ∷ (11271, 11319 ∷ [])
    ∷ (11272, 11320 ∷ [])
    ∷ (11273, 11321 ∷ [])
    ∷ (11274, 11322 ∷ [])
    ∷ (11275, 11323 ∷ [])
    ∷ (11276, 11324 ∷ [])
    ∷ (11277, 11325 ∷ [])
    ∷ (11278, 11326 ∷ [])
    ∷ (11279, 11327 ∷ [])
    ∷ (11280, 11328 ∷ [])
    ∷ (11281, 11329 ∷ [])
    ∷ (11282, 11330 ∷ [])
    ∷ (11283, 11331 ∷ [])
    ∷ (11284, 11332 ∷ [])
    ∷ (11285, 11333 ∷ [])
    ∷ (11286, 11334 ∷ [])
    ∷ (11287, 11335 ∷ [])
    ∷ (11288, 11336 ∷ [])
    ∷ (11289, 11337 ∷ [])
    ∷ (11290, 11338 ∷ [])
    ∷ (11291, 11339 ∷ [])
    ∷ (11292, 11340 ∷ [])
    ∷ (11293, 11341 ∷ [])
    ∷ (11294, 11342 ∷ [])
    ∷ (11295, 11343 ∷ [])
    ∷ (11296, 11344 ∷ [])
    ∷ (11297, 11345 ∷ [])
    ∷ (11298, 11346 ∷ [])
    ∷ (11299, 11347 ∷ [])
    ∷ (11300, 11348 ∷ [])
    ∷ (11301, 11349 ∷ [])
    ∷ (11302, 11350 ∷ [])
    ∷ (11303, 11351 ∷ [])
    ∷ (11304, 11352 ∷ [])
    ∷ (11305, 11353 ∷ [])
    ∷ (11306, 11354 ∷ [])
    ∷ (11307, 11355 ∷ [])
    ∷ (11308, 11356 ∷ [])
    ∷ (11309, 11357 ∷ [])
    ∷ (11310, 11358 ∷ [])
    ∷ (11311, 11359 ∷ [])
    ∷ (11360, 11361 ∷ [])
    ∷ (11362, 619 ∷ [])
    ∷ (11363, 7549 ∷ [])
    ∷ (11364, 637 ∷ [])
    ∷ (11367, 11368 ∷ [])
    ∷ (11369, 11370 ∷ [])
    ∷ (11371, 11372 ∷ [])
    ∷ (11373, 593 ∷ [])
    ∷ (11374, 625 ∷ [])
    ∷ (11375, 592 ∷ [])
    ∷ (11376, 594 ∷ [])
    ∷ (11378, 11379 ∷ [])
    ∷ (11381, 11382 ∷ [])
    ∷ (11390, 575 ∷ [])
    ∷ (11391, 576 ∷ [])
    ∷ (11392, 11393 ∷ [])
    ∷ (11394, 11395 ∷ [])
    ∷ (11396, 11397 ∷ [])
    ∷ (11398, 11399 ∷ [])
    ∷ (11400, 11401 ∷ [])
    ∷ (11402, 11403 ∷ [])
    ∷ (11404, 11405 ∷ [])
    ∷ (11406, 11407 ∷ [])
    ∷ (11408, 11409 ∷ [])
    ∷ (11410, 11411 ∷ [])
    ∷ (11412, 11413 ∷ [])
    ∷ (11414, 11415 ∷ [])
    ∷ (11416, 11417 ∷ [])
    ∷ (11418, 11419 ∷ [])
    ∷ (11420, 11421 ∷ [])
    ∷ (11422, 11423 ∷ [])
    ∷ (11424, 11425 ∷ [])
    ∷ (11426, 11427 ∷ [])
    ∷ (11428, 11429 ∷ [])
    ∷ (11430, 11431 ∷ [])
    ∷ (11432, 11433 ∷ [])
    ∷ (11434, 11435 ∷ [])
    ∷ (11436, 11437 ∷ [])
    ∷ (11438, 11439 ∷ [])
    ∷ (11440, 11441 ∷ [])
    ∷ (11442, 11443 ∷ [])
    ∷ (11444, 11445 ∷ [])
    ∷ (11446, 11447 ∷ [])
    ∷ (11448, 11449 ∷ [])
    ∷ (11450, 11451 ∷ [])
    ∷ (11452, 11453 ∷ [])
    ∷ (11454, 11455 ∷ [])
    ∷ (11456, 11457 ∷ [])
    ∷ (11458, 11459 ∷ [])
    ∷ (11460, 11461 ∷ [])
    ∷ (11462, 11463 ∷ [])
    ∷ (11464, 11465 ∷ [])
    ∷ (11466, 11467 ∷ [])
    ∷ []
