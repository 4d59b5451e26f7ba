-- ===== src/Ui.antt =====
-- The renderer of truetop/src/ui: keys, the event loop, the table and the colours.
pub mod App
pub mod Keys
pub mod Table
pub mod Order
pub mod Theme
pub mod Spans
pub mod Status
pub mod Header
pub mod Gauges
pub mod Frame
pub mod Drawn
pub mod Cells
pub mod Loop
pub mod Terminal
pub mod Turns
pub mod Examples
