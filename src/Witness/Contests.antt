-- ===== src/Witness/Contests.antt =====
-- Processes at one lock file.
use scap.Get.Contest.{Contest}
