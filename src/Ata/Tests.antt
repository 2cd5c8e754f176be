-- ===== src/Ata/Tests.antt =====
-- The theorems on the disk driver at a drive that always has a sector, and at one that has failed.
use goatos.Base.{
  ℕ, ◌≡◌, refl, true, not, ◌&&◌, List, [], ◌==◌, bit_and, if◌then◌else◌, replicate, arith,
}
use goatos.Ata.{Bus, ok, err, timeout, status_bsy, init, read_lba}
use goatos.Ata.Attempt.{Attempt, IsRequest, read_lba-Attempt}
use goatos.Ata.Steady.{has_sector, read_lba-steady}

abbrev sector : List ℕ
sector = replicate 512 0

-- Every port reads as this byte.
abbrev always : ℕ → Bus
always status t port = status

read_lba-Attempt_example : Attempt true 2048 sector [] (read_lba (always 0x58) true 2048 sector [])
read_lba-Attempt_example = read_lba-Attempt (always 0x58) 2048 sector [] true

abbrev sector-IsRequest : IsRequest 2048 sector
sector-IsRequest = (omega arith, refl, omega arith, omega arith)

-- Ready, with the error bit.
read_lba-steady_example :
    ((init (always 0x59) []).0
      ≡ (not (0x59 == 0xff) && not (bit_and 0x59 status_bsy == status_bsy)))
    × ((read_lba (always 0x59) true 2048 sector []).result
        ≡ (if has_sector 0x59 then ok tt else err timeout))
read_lba-steady_example =
    read_lba-steady (always 0x59) 0x59 (omega arith) (λ t. refl) 2048 sector [] sector-IsRequest
