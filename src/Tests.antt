-- ===== src/Tests.antt =====
-- Witnesses: each headline theorem at a concrete input, and runs of the code on small states.
mod SystemCpTests
mod IoHubCpTests
mod PrmTests
mod MemTests
mod BridgeTests
mod IoApicTests
mod IchCpTests
mod IoHubTests
mod DmaTests
mod ListMap
mod BarTests
mod SystemXBarTests
mod IchToolTests
mod LoaderTests
