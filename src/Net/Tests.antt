-- ===== src/Net/Tests.antt =====
-- kernel/net.h: the checksum at an example.
use mini_win.Base.{◌≡◌, refl, [], ◌∷◌, ◌++◌, arith}
use mini_win.Net.{put16, checksum_add, checksum_finish}
use mini_win.Net.Checksum.{checksum_finish-filled}

checksum_finish-filled_example :
    checksum_finish (
      checksum_add 0 (
        (69 ∷ 0 ∷ 0 ∷ 20 ∷ [])
        ++ (put16 (checksum_finish (checksum_add 0 (69 ∷ 0 ∷ 0 ∷ 20 ∷ 0 ∷ 0 ∷ 1 ∷ 2 ∷ 3 ∷ [])))
            ++ (1 ∷ 2 ∷ 3 ∷ []))))
    ≡ 0
checksum_finish-filled_example =
    checksum_finish-filled 0 2 (69 ∷ 0 ∷ 0 ∷ 20 ∷ []) (1 ∷ 2 ∷ 3 ∷ []) refl (omega arith)
